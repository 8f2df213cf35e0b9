-- ===== src/Tty/Reader.antt =====
-- The reader thread of src/tty.rs.
use weverywhere.Prelude.{
  ◌≡◌, refl, ap, ◌∙◌, inl, inr, Bool, true, false, List, [], ◌∷◌, ◌++◌, none, some, arith,
  if◌then◌else◌, All, flat_map, Option-cases,
}
use weverywhere.Tty.{TtyEvent}
use weverywhere.Tty.Input.{Event, map_event}

-- One turn of the reader thread: whether the guard asked it to stop, what the poll and the read brought
-- within 50 ms, and whether the handle still receives.
pub data Polled : Type 0 where
  event : Event → Polled
  nothing read_error poll_error : Polled

pub record Tick : Type 0 where
  pub stop : Bool
  pub polled : Polled
  pub receives : Bool

-- The events that the thread sends, until it ends.
unfoldable pub reader : List Tick → List TtyEvent
reader [] = []
reader (t ∷ ts) =
    let rest = reader ts in
    if t.stop then [] else elim t.polled [
      | event e ↦ elim (map_event e) [
        | some mapped ↦ if t.receives then mapped ∷ rest else []
        | none ↦ rest
      ]
      | nothing ↦ rest
      | read_error ↦ []
      | poll_error ↦ []
    ]

abbrev typed : Polled → List TtyEvent
typed (event e) = elim (map_event e) [ none ↦ [] | some mapped ↦ mapped ∷ [] ]
typed _ = []

-- A turn after which the thread goes on.
abbrev Succeeds : Polled → Type 0
Succeeds (event e) = Unit {0}
Succeeds nothing = Unit {0}
Succeeds _ = ⊥

abbrev GoesOn : Tick → Type 0
GoesOn t = (t.stop ≡ false) × (t.receives ≡ true) × Succeeds t.polled

reader-go :
    (p : Polled) (ts : List Tick)
    → Succeeds p
    → reader (record { stop = false; polled = p; receives = true } ∷ ts) ≡ typed p ++ reader ts
unfolding reader
reader-go (event e) ts h = elim (Option-cases (map_event e)) [
  | inl no_event ↦ ground arith
  | inr (mapped, some_event) ↦ ground arith
]
reader-go nothing ts h = refl
reader-go read_error ts h = elim h [ ]
reader-go poll_error ts h = elim h [ ]

reader_end : reader [] ≡ []
unfolding reader
reader_end = refl

tick_eta : (t : Tick) → GoesOn t → t ≡ record { stop = false; polled = t.polled; receives = true }
tick_eta t h = cc (h.0, h.1)

-- While nobody stops it and nothing fails, the thread sends the events that are typed, translated and
-- in their order, and drops only those that programs do not read.
pub reader-typed : (ts : List Tick) → All GoesOn ts → reader ts ≡ flat_map (λ t. typed t.polled) ts
reader-typed [] h = reader_end
reader-typed (t ∷ ts) h =
    ap (λ x. reader (x ∷ ts)) (tick_eta t h.0)
    ∙ reader-go t.polled ts h.0.2
    ∙ ap (λ r. typed t.polled ++ r) (reader-typed ts h.1)
