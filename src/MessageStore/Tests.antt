-- ===== src/MessageStore/Tests.antt =====
-- Tests of the message store, and its theorems at concrete stores.
use weverywhere.Prelude.{◌≡◌, refl, [], ◌∷◌, arith, last_n, bytes_eq}
use weverywhere.MessageStore.{
  MessageStore, Push, new, trim_seen, note_seen, append, push, push_all, read_after, stored,
}
use weverywhere.MessageStore.Invariant.{IsValid, new-IsValid, push-IsValid}
use weverywhere.MessageStore.Window.{recorded, push_all-window, read_after-push_all}
use weverywhere.MessageStore.Dedup.{push-duplicate}

abbrev hello : Push
hello = record {
  from_name = 97 ∷ [];
  from_pubkey = 1 ∷ 2 ∷ [];
  id = 9 ∷ [];
  text = 104 ∷ [];
  epoch_s = 5;
}

abbrev reply : Push
reply = record hello { from_name = 98 ∷ []; from_pubkey = 3 ∷ 4 ∷ [] }

abbrev plain : Push
plain = record hello { id = [] }

abbrev copy : Push
copy = record hello { text = 120 ∷ []; epoch_s = 6 }

abbrev pair : MessageStore
pair = new 2

small : Unit {0}
unfolding new push append note_seen trim_seen push_all last_n bytes_eq read_after recorded
small = tt

pair-IsValid : IsValid pair
pair-IsValid = new-IsValid 2

-- The two copies of `hello` are stored once, plain messages always, and the oldest drops out.
run_of_four :
    recorded pair (hello ∷ copy ∷ plain ∷ plain ∷ [])
    ≡ stored 1 hello ∷ stored 2 plain ∷ stored 3 plain ∷ []
unfolding small
run_of_four = refl

kept_of_four :
    (push_all pair (hello ∷ copy ∷ plain ∷ plain ∷ [])).msgs ≡ stored 2 plain ∷ stored 3 plain ∷ []
unfolding small
kept_of_four = refl

push-IsValid_example : IsValid (push pair hello).0
unfolding small
push-IsValid_example = push-IsValid {s = pair} hello (omega arith) pair-IsValid

push_all-window_example :
    (push_all pair (hello ∷ copy ∷ reply ∷ plain ∷ [])).msgs
    ≡ last_n 2 (recorded pair (hello ∷ copy ∷ reply ∷ plain ∷ []))
unfolding new
push_all-window_example =
    push_all-window pair (hello ∷ copy ∷ reply ∷ plain ∷ []) (omega arith) (omega arith)
      (omega arith)

read_after-push_all_example :
    read_after (push_all pair (hello ∷ copy ∷ reply ∷ [])) 0
    ≡ recorded pair (hello ∷ copy ∷ reply ∷ [])
unfolding small
read_after-push_all_example =
    read_after-push_all pair (hello ∷ copy ∷ reply ∷ []) pair-IsValid (omega arith) (omega arith)

push-duplicate_example :
    push (push_all pair (hello ∷ reply ∷ plain ∷ [])) copy
    ≡ (push_all pair (hello ∷ reply ∷ plain ∷ []), 0)
unfolding small
push-duplicate_example =
    push-duplicate pair hello copy (reply ∷ plain ∷ []) pair-IsValid (omega arith) refl
      (omega arith) (omega arith) refl refl
