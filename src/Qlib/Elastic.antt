-- ===== src/Qlib/Elastic.antt =====
-- qlib/qlib.go, _runElasticChan: the buffer between those who post a message and the node's queue.
pub mod Order
mod Tests
use mnm.Prelude.{ℕ, Option, none, some, List, [], ◌∷◌, ◌++◌, Text}
use mnm.Prelude.Order.{sort_texts}

-- What the loop's channels do next: a value comes in, the consumer takes one, or the input is closed.
pub data Event : Type 0 where
  arrives : Text → Event
  taken : Event
  closes : Event

-- After a step the loop goes on with its buffer, or has ended.
pub data Elastic : Type 0 where
  open_with : List Text → Elastic
  ended : Elastic

-- o.buf = append(o.buf, aS), and sort.Strings(o.buf)
unfoldable pub receive : Text → List Text → List Text
receive s buf = sort_texts (buf ++ s ∷ [])

-- One event, with the values sent; `none` where the select does not offer the event: the buffer has
-- nothing to send.
unfoldable pub elastic_step : List Text → Event → Option (Elastic × List Text)
unfolding receive
elastic_step buf (arrives s) = some (open_with (receive s buf), [])
elastic_step [] taken = none
elastic_step (x ∷ buf) taken = some (open_with buf, x ∷ [])
elastic_step buf closes = some (ended, buf)

abbrev pub elastic_more : List Text → Option (Elastic × List Text) → Option (Elastic × List Text)
elastic_more sent none = none
elastic_more sent (some (last, more)) = some (last, sent ++ more)

abbrev pub elastic_end : List Event → List Text → Option (Elastic × List Text)
elastic_end [] sent = some (ended, sent)
elastic_end (e ∷ es) sent = none

-- The loop over events that the channels offer in this order, with all that is sent.
unfoldable pub elastic_run : List Text → List Event → Option (Elastic × List Text)
unfolding elastic_step
elastic_run buf [] = some (open_with buf, [])
elastic_run buf (e ∷ es) = elim (elastic_step buf e) [
  | none ↦ none
  | some (state, sent) ↦ elim state [
    | ended ↦ elastic_end es sent
    | open_with buf' ↦ elastic_more sent (elastic_run buf' es)
  ]
]
