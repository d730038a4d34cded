-- ===== src/Models/Reducer/Apply.antt =====
-- `apply` and `result` of core/models/reducer.go.
use serpe.Base.{
  ◌≡◌, refl, Option, none, some, List, [], ◌∷◌, if◌then◌else◌, pair_eq, bytes_eq, nat_eq,
}
use serpe.Models.Content.{Test}
use serpe.Models.Event.{
  Event, EventKind, response_start, part_start, part_delta, part_end, response_end, other_event,
  ShapeError, validate_event_shape,
}
use serpe.Models.Reducer.{Response, Reducer, Result, ok, err, after_end, invalid_shape}
use serpe.Models.Reducer.Parts.{start, start_part, delta_part, end_part}
use serpe.Models.Reducer.Finish.{end}

module _ (is_object has_scheme : Test) where
  -- The `switch` of `apply`.
  unfoldable pub apply_kind : EventKind → Event → Reducer → Result Reducer
  unfolding start start_part delta_part end_part end
  apply_kind response_start e r = elim e.response [
    | none ↦ err (invalid_shape ShapeError.response_missing)
    | some info ↦ start info r
  ]
  apply_kind part_start e r = start_part e r
  apply_kind part_delta e r = delta_part e r
  apply_kind part_end e r = end_part is_object has_scheme e r
  apply_kind response_end e r = end e r
  apply_kind (other_event name) e r = err (invalid_shape ShapeError.unknown_event)

  unfoldable pub apply : Event → Reducer → Result Reducer
  unfolding validate_event_shape apply_kind
  apply e r = elim (validate_event_shape is_object has_scheme e) [
    | some error ↦ err (invalid_shape error)
    | none ↦ if r.ended then err after_end else apply_kind e.kind e r
  ]

unfoldable pub result : Reducer → Option Response
result r = if r.ended then some r.response else none

-- The events of a stream in order.
unfoldable pub reduce : Test → Test → List Event → Reducer → Result Reducer
unfolding apply
reduce is_object has_scheme [] r = ok r
reduce is_object has_scheme (e ∷ es) r = elim (apply is_object has_scheme e r) [
  | err error ↦ err error
  | ok r' ↦ reduce is_object has_scheme es r'
]

pub reduce_inv :
    (is_object has_scheme : Test) (e : Event) (es : List Event) (r s : Reducer)
    → reduce is_object has_scheme (e ∷ es) r ≡ ok s
    → (t : Reducer) × (apply is_object has_scheme e r ≡ ok t)
      × (reduce is_object has_scheme es t ≡ ok s)
unfolding reduce
reduce_inv is_object has_scheme e es r s h = stepped (apply is_object has_scheme e r) refl
  where
    stepped :
        (o : Result Reducer)
        → apply is_object has_scheme e r ≡ o
        → (t : Reducer) × (apply is_object has_scheme e r ≡ ok t)
          × (reduce is_object has_scheme es t ≡ ok s)
    stepped (err x) done = absurd (cc (done, h))
    stepped (ok t) done = (t, done, cc (done, h))
