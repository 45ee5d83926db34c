-- ===== src/Stacks/Tests.antt =====
-- A stack trace that is joined while another file is read, and the theorem at it.
use centi_log.Base.{List, [], ◌∷◌, ◌++◌, ℕ, ◌≡◌, refl}
use centi_log.Dict.{insert, lookup}
use centi_log.Stacks.{add, is_stack_continuation, new_stacks}
use centi_log.Stacks.Joined.{IsKeyed, add_lines, add_lines-stream, held, lines_of, stream}
use centi_log.Tailer.{FileConfig, FileLine}
use centi_log.Text.{
  Text, codes, has_prefix, space_width, space_width_back, text_eq, trim_by, trim_space,
}

abbrev java_log : FileConfig
java_log = record { path = codes "j.log"; format = codes "plain"; time_zone = codes "UTC" }

abbrev other_log : FileConfig
other_log = record { path = codes "o.log"; format = codes "plain"; time_zone = codes "UTC" }

abbrev line_of : FileConfig → Text → FileLine
line_of config text = record { file = config; text = text; end_offset = 7 }

abbrev trace : List (FileLine × ℕ)
trace =
    (line_of java_log (codes "boom"), 1)
    ∷ (line_of other_log (codes "fine"), 2)
    ∷ (line_of java_log (codes "  at main"), 3)
    ∷ (line_of java_log (codes "Caused by: x"), 4)
    ∷ (line_of java_log (codes "next"), 5)
    ∷ []

stacks : Unit {0}
unfolding add_lines add is_stack_continuation lookup insert trim_space has_prefix space_width
    trim_by space_width_back text_eq stream codes
stacks = tt

trace_run :
    (add_lines new_stacks trace).1 ≡ line_of java_log (codes "boom\n  at main\nCaused by: x") ∷ []
unfolding stacks
trace_run = refl

nothing-IsKeyed : IsKeyed new_stacks
unfolding lookup
nothing-IsKeyed = record { same_path = λ path line h. cc }

add_lines-stream_example :
    (stream (codes "j.log") (add_lines new_stacks trace).1
        ++ held (codes "j.log") (add_lines new_stacks trace).0
      ≡ held (codes "j.log") new_stacks ++ stream (codes "j.log") (lines_of trace))
    × IsKeyed (add_lines new_stacks trace).0
add_lines-stream_example = add_lines-stream (codes "j.log") new_stacks trace nothing-IsKeyed
