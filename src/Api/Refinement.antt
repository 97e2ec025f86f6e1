-- ===== src/Api/Refinement.antt =====
-- The client at the end of a connection that delivers is the server itself (api/api.go,
-- server/api.go).
use dcounter.Base.{
  ◌≡◌, ◌∙◌, refl, sym, ap, Bool, true, false, Option, none, some, List, [], Text, text_eq, arith,
  map,
}
use dcounter.Base.Result.{Result, Error, ok}
use dcounter.Float.{Float}
use dcounter.Counter.Growth.{All}
use dcounter.Errors.{len, merge_errors}
use dcounter.Wire.{FloatRep}
use dcounter.Proto.RoundTrip.{IsWord}
use dcounter.Server.{Server}
use dcounter.Server.Local
use dcounter.Server.Lifecycle
use dcounter.Server.Handle.{Outside}
use dcounter.Api.Interface.{Call, client, direct, pack}
use dcounter.Api.Lists.{AllFit, list_delivered}
use dcounter.Base.Dict.{IsMap}
use dcounter.Api.EndToEnd.{direct_net}
use dcounter.Api.Direct.{
  ping_direct, get_direct, inc_direct, set_direct, join_direct, save_direct, members_direct,
  close_direct,
}

module _ ⦃rep : FloatRep⦄ (out : Outside) where
  no_error : (errs : List (Option Error)) → len errs ≡ 0 → merge_errors errs ≡ none
  unfolding merge_errors len
  no_error errs fine = rw fine refl

  -- The state of the client's side, after a call that left the server as `s`.
  abbrev pub over_wire : {A : Type 0} → Call Server A → Call (Bool × (Server × Text)) A
  over_wire (r, s) = (r, (true, (s, [])))

  direct_inc :
      (name : Text) (diff v : Float) (s s' : Server)
      → Local.inc name diff s ≡ some (v, s')
      → (direct out).inc name diff s ≡ (some (v, none), s')
  direct_inc name diff v s s' incs = ground (arith, incs)

  direct_set :
      (name : Text) (v old : Float) (s s' : Server) (errs : List (Option Error))
      → len errs ≡ 0
      → Local.set out.send out.nodes name v s ≡ some (old, errs, s')
      → (direct out).set name v s ≡ (some (old, none), s')
  direct_set name v old s s' errs fine sets = ground (arith, sets, no_error errs fine)

  direct_join :
      (s : Server)
      → (hosts : List Text) → out.joined ≡ none
      → (direct out).join hosts s ≡ (some (tt, none), Lifecycle.reset_for_join out.now s)
  unfolding Lifecycle.join
  direct_join s hosts joined = ground (arith, joined)

  direct_save :
      (json : Text) (s : Server)
      → out.encode s.replicas ≡ ok json
      → (direct out).save s ≡ (some (json, none), s)
  unfolding Lifecycle.save
  direct_save json s encodes = ground (arith, encodes)

  -- The client of api/api.go, with or without a connection at the time of the call, over
  -- connections that deliver, is the server itself: each method of the interface API returns what
  -- the server's own operation returns, with no error and no panic, leaves the server in the state
  -- that the operation leaves it in, and leaves a connection with nothing more to read; Close
  -- leaves none. The names and hosts are words, a name that INC or SET gets is not empty, the
  -- amounts are float64 values, a list has each name once, JSON is a word and the members are
  -- decoded from theirs, and the server's operation, the sends of SET and memberlist's Join do not
  -- fail.
  pub client_refines_server :
      (decode : Text → Result (List (Text × Text))) (c : Bool) (s s₁ s₂ : Server)
      (name json members_json : Text) (diff v total old : Float) (hosts : List Text)
      (errs : List (Option Error))
      → IsWord name
      → text_eq name [] ≡ false
      → rep.fits (Local.get name s).0 ≡ true
      → rep.fits diff ≡ true
      → rep.fits total ≡ true
      → Local.inc name diff s ≡ some (total, s₁)
      → rep.fits v ≡ true
      → rep.fits old ≡ true
      → Local.set out.send out.nodes name v s ≡ some (old, errs, s₂)
      → len errs ≡ 0
      → All (λ e. IsWord e.0) (Local.list s)
      → IsMap (Local.list s)
      → AllFit (Local.list s)
      → All IsWord hosts
      → out.joined ≡ none
      → IsWord json
      → out.encode s.replicas ≡ ok json
      → IsWord members_json
      → out.encode_members (map (λ n. (n.name, n.addr)) out.nodes) ≡ ok members_json
      → decode members_json ≡ ok (map (λ n. (n.name, n.addr)) out.nodes)
      → ((client (direct_net out) decode).ping (c, (s, [])) ≡ over_wire ((direct out).ping s))
        × ((client (direct_net out) decode).get name (c, (s, []))
            ≡ over_wire ((direct out).get name s))
        × ((client (direct_net out) decode).inc name diff (c, (s, []))
            ≡ over_wire ((direct out).inc name diff s))
        × ((client (direct_net out) decode).set name v (c, (s, []))
            ≡ over_wire ((direct out).set name v s))
        × ((client (direct_net out) decode).list (c, (s, [])) ≡ over_wire ((direct out).list s))
        × ((client (direct_net out) decode).join hosts (c, (s, []))
            ≡ over_wire ((direct out).join hosts s))
        × ((client (direct_net out) decode).save (c, (s, [])) ≡ over_wire ((direct out).save s))
        × ((client (direct_net out) decode).members (c, (s, []))
            ≡ over_wire ((direct out).members s))
        × ((client (direct_net out) decode).close (c, (s, [])) ≡ (none, (false, (s, []))))
  client_refines_server decode c s s₁ s₂ name json members_json diff v total old hosts errs word
        named fits fits_diff fits_total incs fits_v fits_old sets fine words once fit words' joined
        word' encodes word'' encodes' decodes =
      (
        ap pack (ping_direct out c s),
        ap pack (get_direct out c name s word fits),
        ap pack (inc_direct out c name diff total s s₁ word named fits_diff fits_total incs)
            ∙ ap over_wire (sym (direct_inc name diff total s s₁ incs)),
        ap pack (set_direct out c name v old s s₂ word named fits_v fits_old errs fine sets)
            ∙ ap over_wire (sym (direct_set name v old s s₂ errs fine sets)),
        ap pack (list_delivered out c s words once fit),
        ap pack (join_direct out c hosts s words' joined)
            ∙ ap over_wire (sym (direct_join s hosts joined)),
        ap pack (save_direct out c json s word' encodes)
            ∙ ap over_wire (sym (direct_save json s encodes)),
        ap pack (
            members_direct out decode (map (λ n. (n.name, n.addr)) out.nodes) c members_json s
              word'' encodes' decodes),
        ap (λ (e, b, w). (e, (b, w))) (close_direct out c s),
      )
