-- ===== src/Server/Queue.antt =====
-- What the queue of changes may leave out (server/change/change.go, server/server.go).
use dcounter.Base.{
  has_byte, ◌≡◌, ◌∙◌, ap, true, false, Option, none, some, Text, text_eq_refl, arith, Bool-cases,
  inl, inr, ltb,
}
use dcounter.Base.Dict.{contains}
use dcounter.Float.{Float, nan, inf, neg_inf, fin, gt}
use dcounter.Float.Laws.{IsNumber, IsFinite, IsFinite-IsNumber}
use dcounter.Counter.{Counter, merge, raise_to, inc_counter}
use dcounter.Counter.Merge.{AreNumbers, raise_to_assoc}
use dcounter.Counter.Growth.{IsBelow, IsFiniteCounter, merge-top, raise_to_top, inc_counter_grows}
use dcounter.Wire.{FloatRep, newline, change_bytes}
use dcounter.Wire.RoundTrip.{IsWireable}
use dcounter.Server.{Server, new_change, invalidates, change_payload, lookup_counter}
use dcounter.Server.Messages.{notify_msg, merge_at}
use dcounter.Server.Maps.{lookup_counter-merge_at}
use dcounter.Server.Delivery.{notify_msg-change_bytes}

raise_through :
    (a c d : Float)
    → IsNumber c
    → IsNumber d
    → gt c d ≡ false
    → raise_to (raise_to a c) d ≡ raise_to a d
unfolding raise_to gt
raise_through nan c d hc hd h = ground arith
raise_through (fin x) c d hc hd h =
    raise_to_assoc (fin x) c d tt hc hd ∙ ap (raise_to (fin x)) (raise_to_top c d hc hd h)
raise_through inf c d hc hd h =
    raise_to_assoc inf c d tt hc hd ∙ ap (raise_to inf) (raise_to_top c d hc hd h)
raise_through neg_inf c d hc hd h =
    raise_to_assoc neg_inf c d tt hc hd ∙ ap (raise_to neg_inf) (raise_to_top c d hc hd h)

-- A counter that is below a second one is not missed before it.
merge-below :
    (o : Option Counter) (c d : Counter)
    → AreNumbers d
    → IsBelow c d
    → merge (some (merge o c)) d ≡ merge o d
unfolding merge
merge-below none c d n h = merge-top c d n h
merge-below (some a) c d n h = elim (Bool-cases (ltb a.revision c.revision)) [
  | inl older ↦ ground (arith, older, h.same_revision, merge-top c d n h)
  | inr later ↦ ground (
    arith,
    later,
    h.same_revision,
    raise_through a.up c.up d.up h.up_number n.up_number h.up_below,
    raise_through a.down c.down d.down h.down_number n.down_number h.down_below,
  )
]

module _ ⦃rep : FloatRep⦄ where
  -- After an increment by a finite amount, the new change of the counter invalidates one that is
  -- still queued, and a server that gets the new one only has the same counters as one that gets
  -- both. The names hold no newline, and the counters are finite float64 values.
  pub invalidated_adds_nothing :
      (member name : Text) (c : Counter) (diff : Float) (s : Server)
      → has_byte newline member ≡ false
      → has_byte newline name ≡ false
      → IsFinite diff
      → IsFiniteCounter c
      → IsWireable c
      → IsWireable (inc_counter diff c)
      → let older = new_change name (change_bytes member name c) in
        let newer = new_change name (change_bytes member name (inc_counter diff c)) in
        (invalidates newer older ≡ true)
        × ((m n : Text)
            → lookup_counter m n
                (notify_msg (change_payload newer) (notify_msg (change_payload older) s)).replicas
              ≡ lookup_counter m n (notify_msg (change_payload newer) s).replicas)
  unfolding invalidates new_change change_payload
  invalidated_adds_nothing member name c diff s hm hn finite c_finite wire wire' =
      let d = inc_counter diff c in
      let (below, d_finite, _) = inc_counter_grows diff c finite c_finite in
      let s' = notify_msg (change_bytes member name c) s in
      let first = notify_msg-change_bytes member name c s hm hn wire in
      let both = notify_msg-change_bytes member name d s' hm hn wire' in
      let alone = notify_msg-change_bytes member name d s hm hn wire' in
      (
        text_eq_refl name,
        λ m n. elim (Bool-cases (contains member s.members)) [
          | inr unknown ↦ ground (arith, first, both, alone, unknown)
          | inl known ↦
              let r = s.replicas in
              let numbers : AreNumbers d = record {
                up_number = IsFinite-IsNumber d.up d_finite.up_finite;
                down_number = IsFinite-IsNumber d.down d_finite.down_finite;
              } in
              ground (
                arith,
                first,
                both,
                alone,
                known,
                lookup_counter-merge_at m n member name d (merge_at member name c r),
                lookup_counter-merge_at member name member name c r,
                lookup_counter-merge_at m n member name c r,
                lookup_counter-merge_at m n member name d r,
                merge-below (lookup_counter member name r) c d numbers below,
                text_eq_refl member,
                text_eq_refl name,
              )
        ],
      )
