-- ===== src/Models/Reducer/History.antt =====
-- What the events of a stream for core/models/reducer.go say of each part: the block that opens it, and
-- the bytes of its deltas in order.
use serpe.Base.{
  ◌≡◌, refl, sym, ap, ◌∙◌, arith, Bool, true, false, ◌&&◌, Option, none, some, List, [], ◌∷◌, ◌++◌,
  ◌==◌, if◌then◌else◌, pair_eq, Bytes, bytes_eq, nat_eq,
}
use serpe.Models.Content.{Content}
use serpe.Models.Event.{is_start, Event, EventKind, part_delta}
use serpe.Models.Reducer.{PartKey, part_key}
use mathlib.Core.List.{append-nil, append_assoc}
use serpe.Models.Reducer.Payload.{delta_bytes}

abbrev pub is_delta : EventKind → Bool
is_delta part_delta = true
is_delta _ = false

-- The block that the first event of a part brings.
unfoldable pub opening : PartKey → List Event → Option Content
opening key [] = none
opening key (e ∷ es) = if is_start e.kind && part_key e == key then some e.part else opening key es

-- The bytes that the deltas of a part bring, in order.
unfoldable pub written : PartKey → List Event → Bytes
written key [] = []
written key (e ∷ es) =
    (if is_delta e.kind && part_key e == key then delta_bytes e.delta else []) ++ written key es

abbrev first_of {ℓ} : {A : Type ℓ} → Option A → Option A → Option A
first_of none b = b
first_of (some a) b = some a

opening-append :
    (key : PartKey) (past es : List Event)
    → opening key (past ++ es) ≡ first_of (opening key past) (opening key es)
unfolding opening
opening-append key [] es = refl
opening-append key (e ∷ past) es = ground (arith, opening-append key past es)

written-append :
    (key : PartKey) (past es : List Event)
    → written key (past ++ es) ≡ written key past ++ written key es
unfolding written
written-append key [] es = refl
written-append key (e ∷ past) es =
    let ih = written-append key past es in
    let head : Bytes = if is_delta e.kind && part_key e == key then delta_bytes e.delta else [] in
    ap (λ (bytes : Bytes). head ++ bytes) ih
    ∙ sym (append_assoc head (written key past) (written key es))

-- The events of `past` and then `e`.
abbrev pub after : List Event → Event → List Event
after past e = past ++ e ∷ []

pub opening-after :
    (key : PartKey) (past : List Event) (e : Event)
    → opening key (after past e)
      ≡ first_of
          (opening key past)
          (if is_start e.kind && part_key e == key then some e.part else none)
unfolding opening
opening-after key past e = opening-append key past (e ∷ [])

pub written-after :
    (key : PartKey) (past : List Event) (e : Event)
    → written key (after past e)
      ≡ written key past
        ++ (if is_delta e.kind && part_key e == key then delta_bytes e.delta else [])
unfolding written
written-after key past e =
    written-append key past (e ∷ [])
    ∙ ap (λ (bytes : Bytes). written key past ++ bytes)
        (append-nil (if is_delta e.kind && part_key e == key then delta_bytes e.delta else []))

-- An event that is not about this part, or that ends it, says nothing new of it.
pub quiet :
    (key : PartKey) (past : List Event) (e : Event)
    → (is_start e.kind && part_key e == key) ≡ false
    → (is_delta e.kind && part_key e == key) ≡ false
    → (opening key (after past e) ≡ opening key past)
      × (written key (after past e) ≡ written key past)
quiet key past e s d = (
  opening-after key past e ∙ rw s (kept (opening key past)),
  written-after key past e ∙ rw d (append-nil (written key past)),
)
  where
    kept : (c : Option Content) → first_of c none ≡ c
    kept none = refl
    kept (some c) = refl
