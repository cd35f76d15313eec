-- ===== src/Qlib/Elastic/Tests.antt =====
-- Three values, of which the first in order is taken first.
use mnm.Prelude.{◌≡◌, refl, none, some, List, [], ◌∷◌, text}
use mnm.Prelude.Order.{sort_texts, leb_text}
use mnm.Qlib.Elastic.{Event, arrives, taken, closes, ended, elastic_step, elastic_run}
use mnm.Qlib.Elastic.Order.{RunsTo, arrived, elastic_run-Runs}

abbrev events : List Event
events = arrives (text "Mb") ∷ arrives (text "Ma") ∷ taken ∷ arrives (text "E9") ∷ closes ∷ []

runs : elastic_run [] events ≡ some (ended, text "Ma" ∷ text "E9" ∷ text "Mb" ∷ [])
unfolding elastic_run sort_texts leb_text
runs = refl

not_offered : elastic_step [] taken ≡ none
unfolding elastic_step
not_offered = refl

elastic_run-Runs_example : RunsTo [] (arrived events) (elastic_run [] events)
elastic_run-Runs_example = elastic_run-Runs [] events tt
