-- ===== src/Server/Convergence.antt =====
-- The changes of an owner, as they reach another server by gossip: NotifyMsg of
-- server/memberlist.go on what broadcastChange of server/api.go has written, in any order.
use dcounter.Base.{
  has_byte, ◌≡◌, ◌∙◌, refl, ap, true, false, Option, none, some, List, [], ◌∷◌, ◌++◌, Text,
  text_eq_refl, arith,
}
use dcounter.Base.Dict.{contains}
use dcounter.Counter.{Counter, merge}
use dcounter.Counter.Merge.{AreNumbers}
use dcounter.Counter.Growth.{All, IsBelow, merge_all, merge_all-from, replica_catches_up}
use dcounter.Wire.{FloatRep, newline, change_bytes}
use dcounter.Wire.RoundTrip.{IsWireable}
use dcounter.Server.{Server, lookup_counter}
use dcounter.Server.Messages.{merge_at, notify_msg}
use dcounter.Server.Maps.{lookup_counter-merge_at}
use dcounter.Server.Delivery.{notify_msg-change_bytes}

-- What a server holds of the counter, if anything, is an earlier counter of the same revision.
abbrev pub IsEarlier : Option Counter → Counter → Type 0
IsEarlier none d = Unit
IsEarlier (some a) d = IsBelow a d

from_earlier :
    (o : Option Counter) (d : Counter) (xs ys : List Counter)
    → AreNumbers d
    → IsEarlier o d
    → All (λ c. IsBelow c d) xs
    → All (λ c. IsBelow c d) ys
    → merge_all o (xs ++ d ∷ ys) ≡ some d
from_earlier none d xs ys n h hx hy = replica_catches_up d xs ys n hx hy
from_earlier (some a) d xs ys n h hx hy = merge_all-from a d xs ys n h hx hy

module _ ⦃rep : FloatRep⦄ (member name : Text) where
  -- The server after the changes of one counter have come in.
  abbrev pub deliver : List Counter → Server → Server
  deliver [] s = s
  deliver (c ∷ cs) s = deliver cs (notify_msg (change_bytes member name c) s)

  deliver_lem :
      (cs : List Counter) (s : Server)
      → has_byte newline member ≡ false
      → has_byte newline name ≡ false
      → contains member s.members ≡ true
      → All IsWireable cs
      → lookup_counter member name (deliver cs s).replicas
        ≡ merge_all (lookup_counter member name s.replicas) cs
  unfolding merge_all
  deliver_lem [] s hm hn known hs = refl
  deliver_lem (c ∷ cs) s hm hn known hs =
      let s' : Server = record s { replicas = merge_at member name c s.replicas } in
      let got : notify_msg (change_bytes member name c) s ≡ s' =
        ground (arith, notify_msg-change_bytes member name c s hm hn hs.0, known) in
      let merged : lookup_counter member name s'.replicas
          ≡ some (merge (lookup_counter member name s.replicas) c) =
        ground (
          arith,
          lookup_counter-merge_at member name member name c s.replicas,
          text_eq_refl member,
          text_eq_refl name,
        ) in
      ap (λ z. lookup_counter member name (deliver cs z).replicas) got
      ∙ deliver_lem cs s' hm hn known hs.1
      ∙ ap (λ o. merge_all o cs) merged

  -- A server that knows the owner, and gets the messages of the owner's newest counter and of any
  -- earlier ones of the same revision, before or after it, in any order and any number of times,
  -- ends with the newest counter of the owner. What it held before is earlier, too, or nothing. The
  -- counters are float64 values without NaN, and neither name holds a newline.
  pub gossip_converges :
      (d : Counter) (xs ys : List Counter) (s : Server)
      → has_byte newline member ≡ false
      → has_byte newline name ≡ false
      → contains member s.members ≡ true
      → All IsWireable (xs ++ d ∷ ys)
      → AreNumbers d
      → IsEarlier (lookup_counter member name s.replicas) d
      → All (λ c. IsBelow c d) xs
      → All (λ c. IsBelow c d) ys
      → lookup_counter member name (deliver (xs ++ d ∷ ys) s).replicas ≡ some d
  gossip_converges d xs ys s hm hn known hs n h hx hy =
      deliver_lem (xs ++ d ∷ ys) s hm hn known hs
      ∙ from_earlier (lookup_counter member name s.replicas) d xs ys n h hx hy
