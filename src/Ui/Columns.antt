-- ===== src/Ui/Columns.antt =====
-- The rows of statistics stand under their header.
use Prim.Native.String.{◌++◌, count}
use text.Mathlib.TextLemmas.{length-append}
use iperf3_rust.Common.{
  ◌+◌, ◌≤◌, ◌≡◌, refl, String, Bool, true, false, List, [], ◌∷◌, ◌++◌ as append, append_assoc, inl,
  inr, Bool-cases,
}
use iperf3_rust.Common.Text.{show_usize, pad_left, count-pad_left}
use iperf3_rust.Message.{StreamStats}
use iperf3_rust.Outcome.{ok}
use iperf3_rust.Ui.{Float}
use iperf3_rust.Ui.Lines.{
  columns, header, row, print_stats, println, which_end, index_or_zero, bytes_text, bitrate_text,
  humanize_duration, or_none,
}

abbrev pub index_text : Bool → StreamStats → String
index_text true stats = "TOTAL"
index_text false stats = show_usize (index_or_zero stats.index)

count-columns :
    (id index duration transfer bitrate retr cwnd : String)
    → count id ≤ 3
    → count index ≤ 5
    → count duration ≤ 10
    → count transfer ≤ 15
    → count bitrate ≤ 18
    → count retr ≤ 8
    → count cwnd ≤ 15
    → count (columns id index duration transfer bitrate retr cwnd) ≡ count header + 1
unfolding columns
count-columns id index duration transfer bitrate retr cwnd a b c d e g h = simp (
  length-append,
  count-pad_left 3 id a,
  count-pad_left 5 index b,
  count-pad_left 10 duration c,
  count-pad_left 15 transfer d,
  count-pad_left 18 bitrate e,
  count-pad_left 8 retr g,
  count-pad_left 15 cwnd h,
)

module _ (f : Float) where
  -- Cells that are not wider than their columns.
  pub record FitsColumns (stats : StreamStats) : Type 0 where
    pub id : count (show_usize stats.id) ≤ 3
    pub index : count (index_text stats.is_summary stats) ≤ 5
    pub duration : count (humanize_duration f stats.duration) ≤ 10
    pub transfer : count (bytes_text f stats.bytes_transferred) ≤ 15
    pub bitrate : count (bitrate_text f stats.bytes_transferred stats.duration) ≤ 18
    pub retr : count (or_none show_usize stats.retransmits) ≤ 8
    pub cwnd : count (or_none (bytes_text f) stats.cwnd) ≤ 15

  -- A report takes one line, and a summary a second one before it.
  abbrev pub line_before : Bool → List String
  line_before false = []
  line_before true =
      "- - - - - - - - - - - - - - - - - - - - - - - - - - - - - - - - - - - - - - - - - - - - - - - - -"
      ∷ []

  print_stats-row :
      (stats : StreamStats) (console : List String)
      → print_stats f stats console ≡ (
        ok tt,
        append console (
            append
              (line_before stats.is_summary)
              (row f (index_text stats.is_summary stats) stats ∷ [])),
      )
  unfolding print_stats println
  print_stats-row stats console = elim (Bool-cases stats.is_summary) [
    | inl t ↦ rw (t, append_assoc) refl
    | inr t ↦ rw t refl
  ]

  -- If the cells of a report are not wider than their columns, printing it adds one line, for a
  -- summary after a dashed one, in which the word for the end follows cells as wide as the header
  -- and one blank; the header and a blank are the captions set in the same columns.
  pub print_stats_aligned :
      (stats : StreamStats) (console : List String)
      → FitsColumns stats
      → (cells : String) × (print_stats f stats console ≡ (
        ok tt,
        append console
            (append (line_before stats.is_summary) ((cells ++ which_end stats.is_sending) ∷ [])),
      ))
        × (count cells ≡ count header + 1)
        × (header ++ " " ≡ columns " ID" "Index" "Duration" "Transfer" "Bitrate" "Retr" "Cwnd")
  unfolding columns pad_left
  print_stats_aligned stats console a = (
    columns (show_usize stats.id) (index_text stats.is_summary stats)
        (humanize_duration f stats.duration) (bytes_text f stats.bytes_transferred)
        (bitrate_text f stats.bytes_transferred stats.duration)
        (or_none show_usize stats.retransmits) (or_none (bytes_text f) stats.cwnd),
    print_stats-row stats console,
    count-columns _ _ _ _ _ _ _ a.id a.index a.duration a.transfer a.bitrate a.retr a.cwnd,
    refl,
  )
