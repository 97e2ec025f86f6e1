-- ===== src/Testproxy/Tcp/Copies.antt =====
-- When `handle` of the TCP proxy is over (testproxy/tcp.go).
use mathlib.Core.Option
use dcounter.Base.{ℕ, ◌≡◌, refl, Bool, true, false, none, some, List, [], ◌∷◌, ◌&&◌, arith}
use dcounter.Testproxy.Tcp.{CopyEnd, no_error, at_eof, broken, copy_loop, handle}

-- One of the copies ends with an error that is not io.EOF.
abbrev pub breaks : List (ℕ × CopyEnd) → Bool
breaks [] = false
breaks ((n, broken _) ∷ copies) = true
breaks ((n, no_error) ∷ copies) = breaks copies
breaks ((n, at_eof) ∷ copies) = breaks copies

copy_loop-breaks : (copies : List (ℕ × CopyEnd)) → (copy_loop copies).0 ≡ breaks copies
unfolding copy_loop
copy_loop-breaks [] = refl
copy_loop-breaks ((n, broken _) ∷ copies) = refl
copy_loop-breaks ((n, no_error) ∷ copies) = copy_loop-breaks copies
copy_loop-breaks ((n, at_eof) ∷ copies) = copy_loop-breaks copies

-- After a Dial that succeeds, `handle` is over exactly if each of its two loops has met an error
-- that is not io.EOF: a connection that has ended is copied from again and again.
pub handle-over :
    (back forth : List (ℕ × CopyEnd))
    → Option.map (λ r. r.0) (handle none back forth) ≡ some (breaks back && breaks forth)
unfolding handle
handle-over back forth = ground (arith, copy_loop-breaks back, copy_loop-breaks forth)
