-- ===== src/Report/Tests.antt =====
-- Reports of two metrics and a note.
use jmpxx.Prelude.{◌≡◌, refl, true, none, some, ◌++◌, if◌then◌else◌}
use jmpxx.Prelude.Codes.{codes}
use jmpxx.Report.{Report, empty_report, quote, num, boolean, str, note, fail, render, finish}
use jmpxx.Report.Quote.{read_string, is_text, quote_lem}

abbrev good : Report
good =
    note (codes "a \"b\"")
      (boolean (codes "x86") true (num (codes "size") (codes "8") (empty_report (codes "size"))))

rendered : finish good ≡ (
  codes
      "{\"probe\":\"size\",\"ok\":true,\"metrics\":{\"size\":8,\"x86\":true},\"notes\":[\"a \\\"b\\\"\"]}",
  0,
)
unfolding finish render quote num boolean note
rendered = refl

failed_exit : (finish (fail (codes "no") (str (codes "k") (codes "v") good))).1 ≡ 1
unfolding finish fail str num boolean note
failed_exit = refl

quote_lem_example :
    read_string (quote (codes "a\tb") ++ codes "!")
    ≡ (if is_text (codes "a\tb") then some (codes "a\tb", codes "!") else none)
quote_lem_example = quote_lem (codes "a\tb") (codes "!")
