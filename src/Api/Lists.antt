-- ===== src/Api/Lists.antt =====
-- LIST: what a server lists is what the client returns (api/api.go, server/api.go).
use mathlib.Core.List.{append-nil, append_assoc}
use dcounter.Base.{
  has_byte, ◌≡◌, ◌∙◌, refl, sym, ap, Bool, true, false, none, some, List, [], ◌∷◌, ◌++◌, Text,
  text_eq, text_eq_sym, arith, codes, if◌then◌else◌,
}
use dcounter.Base.Dict.{Dict, lookup, insert, IsMap, lookup-insert}
use dcounter.Float.{Float}
use dcounter.Counter.Growth.{All}
use dcounter.Wire.{FloatRep}
use dcounter.Proto.{has_prefix, join_words}
use dcounter.Proto.RoundTrip.{IsWord}
use dcounter.Server.{Server}
use dcounter.Server.Local
use dcounter.Server.Handle.{Outside, list_args, handle_command}
use dcounter.Api.Methods.{ok_with, read_list, react_list, list}
use dcounter.Api.Calls.{delivered}
use dcounter.Api.EndToEnd.{direct_net, float-IsWord, ret-IsWord}

insert_fresh :
    {V : Type 0} (k : Text) (v : V) (m : Dict V)
    → lookup k m ≡ none
    → insert k v m ≡ m ++ (k, v) ∷ []
unfolding lookup insert
insert_fresh k v [] h = refl
insert_fresh k v ((j, w) ∷ m) h = ground (arith, insert_fresh k v m, h)

-- No key of the second is one of the first.
abbrev AreFresh : Dict Float → Dict Float → Type 0
AreFresh acc = All (λ e. lookup e.0 acc ≡ none)

lookup_cons :
    (n k : Text) (v : Float) (m : Dict Float)
    → lookup n ((k, v) ∷ m) ≡ (if text_eq k n then some v else lookup n m)
unfolding lookup
lookup_cons n k v m = refl

fresh_cons :
    (k : Text) (v : Float) (acc l : Dict Float)
    → lookup k l ≡ none
    → AreFresh acc l
    → AreFresh (insert k v acc) l
fresh_cons k v acc [] h f = tt
fresh_cons k v acc ((j, w) ∷ l) h f = (
  ground (arith, lookup_cons k j w l, h, lookup-insert j k v acc, f.0, text_eq_sym j k),
  fresh_cons k v acc l (ground (arith, lookup_cons k j w l, h)) f.1,
)

module _ ⦃rep : FloatRep⦄ where
  abbrev pub AllFit : Dict Float → Type 0
  AllFit = All (λ e. rep.fits e.1 ≡ true)

  read_list-list_args :
      (l acc : Dict Float)
      → AllFit l
      → IsMap l
      → AreFresh acc l
      → read_list (list_args l) acc ≡ ok_with (some (acc ++ l))
  unfolding read_list list_args
  read_list-list_args [] acc fit h f = ap (λ m. ok_with (some m)) (sym (append-nil acc))
  read_list-list_args ((k, v) ∷ l) acc fit h f =
      let rest = read_list-list_args l (insert k v acc) fit.1 h.1 (fresh_cons k v acc l h.0 f.1) in
      ground (
        arith,
        rep.parse_float-format_float v fit.0,
        rest
            ∙ ap (λ m. ok_with (some m))
                (ap (λ m. m ++ l) (insert_fresh k v acc f.0) ∙ append_assoc acc ((k, v) ∷ []) l),
      )

  AreFresh-nil : (l : Dict Float) → AreFresh [] l
  AreFresh-nil [] = tt
  AreFresh-nil (e ∷ l) = (unfold lookup in refl, AreFresh-nil l)

  list_args-words : (l : Dict Float) → All (λ e. IsWord e.0) l → All IsWord (list_args l)
  unfolding list_args
  list_args-words [] h = tt
  list_args-words ((k, v) ∷ l) h = (h.0, (float-IsWord v, list_args-words l h.1))

  module _ (out : Outside) where
    ret_plain :
        (args : List Text) → has_prefix (codes "ERR ") (join_words (codes "RET") args) ≡ false
    unfolding has_prefix join_words
    ret_plain [] = refl
    ret_plain (a ∷ args) = refl

    -- A client's List over a connection that delivers returns what the server lists, name by name
    -- and with no error, and leaves the server as it was. The names are words, each stands once,
    -- and the values are float64 values.
    pub list_delivered :
        (c : Bool) (s : Server)
        → All (λ e. IsWord e.0) (Local.list s)
        → IsMap (Local.list s)
        → AllFit (Local.list s)
        → list (direct_net out) c (s, []) ≡ (some (some (Local.list s), none), true, (s, []))
    unfolding list react_list
    list_delivered c s words once fit =
        let args = list_args (Local.list s) in
        delivered out (codes "LIST") [] react_list _ _ c s s (codes "RET") args
          (some (some (Local.list s), none))
          (record { no_space = unfold has_byte in refl; no_newline = unfold has_byte in refl }) tt
          (unfold has_prefix join_words in refl) ret-IsWord (list_args-words (Local.list s) words)
          (ret_plain args) (unfold handle_command text_eq in refl)
          (read_list-list_args (Local.list s) [] fit once (AreFresh-nil (Local.list s)))
