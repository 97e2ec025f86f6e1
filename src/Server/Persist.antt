-- ===== src/Server/Persist.antt =====
-- Load, and what a file that Save wrote brings back (server/server.go).
use dcounter.Base.{
  ◌≡◌, ◌∙◌, refl, Option, none, some, [], ◌∷◌, Text, text_eq, text_eq_iff, if◌then◌else◌, arith,
  Bool-cases, inl, inr,
}
use dcounter.Base.Dict.{Dict, lookup, insert, contains, IsMap, lookup-insert}
use dcounter.Base.Result.{Error, Result}
use dcounter.Counter.{Counter}
use dcounter.Server.{Server, Counters, lookup_counter}
use dcounter.Server.Lifecycle.{write_all, load}
use dcounter.Server.Maps.{lookup_counter-ensure_member}

lookup_cons :
    (m k : Text) (v : Dict Counter) (r : Counters)
    → lookup m ((k, v) ∷ r) ≡ (if text_eq k m then some v else lookup m r)
unfolding lookup
lookup_cons m k v r = refl

lookup-write_all :
    (m : Text) (doc r : Counters)
    → IsMap doc
    → lookup m (write_all doc r) ≡ (if contains m doc then lookup m doc else lookup m r)
unfolding write_all
lookup-write_all m [] r h = unfold lookup in refl
lookup-write_all m ((k, v) ∷ doc) r h = ground (
  arith,
  lookup-write_all m doc (insert k v r) h.1,
  lookup-insert m k v r,
  lookup_cons m k v doc,
  h.0,
  text_eq_iff k m,
)

lookup_counter-lookup :
    (m n : Text) (r r' : Counters)
    → lookup m r ≡ lookup m r'
    → lookup_counter m n r ≡ lookup_counter m n r'
unfolding lookup_counter
lookup_counter-lookup m n r r' e = ground (arith, e)

-- After `Load`, also one whose file could be decoded in part only, each member that was read has
-- the counters of the file, and the other members have those that they had.
pub load_lem :
    (doc : Counters) (decoded : Option Error) (s : Server) (m n : Text)
    → IsMap doc
    → lookup_counter m n (load none doc decoded s).0.replicas
      ≡ (if contains m doc then lookup_counter m n doc else lookup_counter m n s.replicas)
unfolding load
load_lem doc decoded s m n h =
    lookup_counter-ensure_member m n s.name (write_all doc s.replicas)
    ∙ elim (Bool-cases (contains m doc)) [
      | inl read ↦ rw read (
          lookup_counter-lookup m n (write_all doc s.replicas) doc
            (lookup-write_all m doc s.replicas h ∙ rw read))
      | inr other ↦ rw other (
          lookup_counter-lookup m n (write_all doc s.replicas) s.replicas
            (lookup-write_all m doc s.replicas h ∙ rw other))
    ]
