-- ===== src/Server/Delivery.antt =====
-- What a message does to the server that gets it.
use mathlib.Core.List.{append-nil}
use dcounter.Base.{has_byte, ◌≡◌, ◌∙◌, sym, ap, false, [], ◌∷◌, ◌++◌, Text, if◌then◌else◌, arith}
use dcounter.Base.Dict.{contains}
use dcounter.Base.Result.{ok}
use dcounter.Counter.{Counter}
use dcounter.Wire.{FloatRep, newline, read_counter, counter_bytes, change_bytes, reset_bytes}
use dcounter.Wire.RoundTrip.{read_string-line, IsWireable, read_counter-counter_bytes}
use dcounter.Server.{Server}
use dcounter.Server.Messages.{merge_at, apply_reset, notify_msg}

module _ ⦃rep : FloatRep⦄ where
  read_counter-end : (c : Counter) → IsWireable c → read_counter (counter_bytes c) ≡ ok (c, [])
  read_counter-end c h =
      ap read_counter (sym (append-nil (counter_bytes c))) ∙ read_counter-counter_bytes c [] h

  -- The change that a server broadcasts, when another gets it: a known member's counter is merged,
  -- and for an unknown member nothing changes.
  pub notify_msg-change_bytes :
      (member name : Text) (c : Counter) (s : Server)
      → has_byte newline member ≡ false
      → has_byte newline name ≡ false
      → IsWireable c
      → notify_msg (change_bytes member name c) s ≡ (
          if contains member s.members
          then record s { replicas = merge_at member name c s.replicas }
          else s)
  unfolding notify_msg change_bytes
  notify_msg-change_bytes member name c s hm hn hc = ground (
    arith,
    read_string-line member (name ++ newline ∷ counter_bytes c) hm,
    read_string-line name (counter_bytes c) hn,
    read_counter-end c hc,
  )

  -- The reset that `set` sends, when the node gets it.
  pub notify_msg-reset_bytes :
      (name : Text) (c : Counter) (s : Server)
      → has_byte newline name ≡ false
      → IsWireable c
      → notify_msg (reset_bytes name c) s ≡ apply_reset name c s
  unfolding notify_msg reset_bytes
  notify_msg-reset_bytes name c s hn hc =
      ground (arith, read_string-line name (counter_bytes c) hn, read_counter-end c hc)
