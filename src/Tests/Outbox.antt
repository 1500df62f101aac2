-- ===== src/Tests/Outbox.antt =====
-- A table with two pending messages and a delivered one.
use open_whisker.Prelude.{◌≡◌, refl, ltb, List, [], ◌∷◌}
use open_whisker.Prelude.Text.{Str, codes}
use open_whisker.Model.{Time, OutboxMessage, OutboxStatus, pending, delivered, result_kind}
use open_whisker.Storage.Lists.{pending_messages, where_test, order_by, put_in_order}

abbrev message : Str → OutboxStatus → Time → OutboxMessage
message id status t = record {
  id = id;
  job_id = codes "job_1";
  actor = codes "knowledge";
  kind = result_kind;
  body = [];
  status = status;
  created_at = t;
}

abbrev table : List OutboxMessage
table =
    message (codes "c") pending 9
    ∷ message (codes "a") delivered 1
    ∷ message (codes "b") pending 5
    ∷ []

oldest_first : pending_messages ltb 1 table ≡ message (codes "b") pending 5 ∷ []
unfolding pending_messages where_test order_by put_in_order
oldest_first = refl
