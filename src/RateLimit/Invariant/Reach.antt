-- ===== src/RateLimit/Invariant/Reach.antt =====
-- The life of the module as a relation of steps, and what holds after any number of them.
use composable_centauri.Base.{refl}
use composable_centauri.Base.Bytes.{Bytes}
use composable_centauri.Base.Exec.{Result, ok, err}
use composable_centauri.Kv.{Kv}
use composable_centauri.Sdk.{Sdk, Packet}
use composable_centauri.RateLimit.State.{State, Context, packet_send, packet_recv}
use composable_centauri.TransferMiddleware.Registry.{Registry}
use composable_centauri.RateLimit.State.{WhitelistedAddressPair, Error}
use composable_centauri.RateLimit.Keeper.{
  MsgRateLimit, set_whitelisted_address_pair, remove_whitelisted_address_pair,
}
use composable_centauri.RateLimit.Packet.{
  send_rate_limited_packet, receive_rate_limited_packet, acknowledge_rate_limited_packet,
  timeout_rate_limited_packet,
}
use composable_centauri.RateLimit.Msgs.{
  add_transfer_rate_limit, update_transfer_rate_limit, remove_transfer_rate_limit,
  reset_transfer_rate_limit,
}
use composable_centauri.RateLimit.Epoch.{begin_blocker}
use composable_centauri.RateLimit.Invariant.Limits.{IsSound, same_limits-IsSound}
use composable_centauri.RateLimit.Invariant.Packets.{
  IsPositive, send-IsSound, receive-IsSound, acknowledge-IsSound, timeout-IsSound,
}
use composable_centauri.RateLimit.Invariant.Governance.{add-IsSound, update-IsSound}
use composable_centauri.RateLimit.Invariant.Resets.{remove-IsSound, reset-IsSound}
use composable_centauri.RateLimit.Invariant.Epochs.{Succeeds, begin_blocker-Succeeds}

module _ ⦃sdk : Sdk⦄ ⦃kv : Kv⦄ where
  -- What can happen to the store: a request of governance from any sender, a packet callback, a
  -- block, a write to the whitelist, a change of the registry of x/transfermiddleware. Each happens
  -- in a block of its own choice.
  pub data Step (s : State) : State → Type 0 where
    adds :
        (ctx : Context) (msg : MsgRateLimit) → Step s (add_transfer_rate_limit ⦃ctx = ctx⦄ msg s).1
    updates :
        (ctx : Context) (msg : MsgRateLimit)
        → Step s (update_transfer_rate_limit ⦃ctx = ctx⦄ msg s).1
    removes :
        (ctx : Context) (sender d c : Bytes)
        → Step s (remove_transfer_rate_limit ⦃ctx = ctx⦄ sender d c s).1
    resets :
        (ctx : Context) (sender d c : Bytes)
        → Step s (reset_transfer_rate_limit ⦃ctx = ctx⦄ sender d c s).1
    sends : (packet : Packet) → Step s (send_rate_limited_packet packet s).1
    receives :
        (packet : Packet)
        → IsPositive packet packet_recv
        → Step s (receive_rate_limited_packet packet s).1
    acknowledges :
        (packet : Packet) (ack : Bytes)
        → IsPositive packet packet_send
        → Step s (acknowledge_rate_limited_packet packet ack s).1
    times_out :
        (packet : Packet)
        → IsPositive packet packet_send
        → Step s (timeout_rate_limited_packet packet s).1
    begins : (ctx : Context) → Step s (begin_blocker ⦃ctx = ctx⦄ s).1
    allows : (pair : WhitelistedAddressPair) → Step s (set_whitelisted_address_pair pair s)
    forbids : (sender receiver : Bytes) → Step s (remove_whitelisted_address_pair sender receiver s)
    registers : (r : Registry) → Step s (record s { registry = r })

  pub data Reach (s : State) : State → Type 0 where
    here : Reach s s
    next : {t u : State} → Reach s t → Step t u → Reach s u

  Succeeds-IsSound :
      ⦃ctx : Context⦄ {A : Type 0} (x : Result Error A × State) → Succeeds x → IsSound x.1
  Succeeds-IsSound (ok a, s) h = h
  Succeeds-IsSound (err e, s) h = absurd h

  Step-IsSound : {s t : State} → Step s t → IsSound s → IsSound t
  unfolding set_whitelisted_address_pair remove_whitelisted_address_pair
  Step-IsSound {s} (adds ctx msg) h = add-IsSound ⦃ctx = ctx⦄ msg s h
  Step-IsSound {s} (updates ctx msg) h = update-IsSound ⦃ctx = ctx⦄ msg s h
  Step-IsSound {s} (removes ctx sender d c) h = remove-IsSound ⦃ctx = ctx⦄ sender d c s h
  Step-IsSound {s} (resets ctx sender d c) h = reset-IsSound ⦃ctx = ctx⦄ sender d c s h
  Step-IsSound {s} (sends packet) h = send-IsSound packet s h
  Step-IsSound {s} (receives packet p) h = receive-IsSound packet s p h
  Step-IsSound {s} (acknowledges packet ack p) h = acknowledge-IsSound packet ack s p h
  Step-IsSound {s} (times_out packet p) h = timeout-IsSound packet s p h
  Step-IsSound {s} (begins ctx) h =
      Succeeds-IsSound ⦃ctx = ctx⦄ _ (begin_blocker-Succeeds ⦃ctx = ctx⦄ s h)
  Step-IsSound {s} (allows pair) h = same_limits-IsSound s _ refl h
  Step-IsSound {s} (forbids sender receiver) h = same_limits-IsSound s _ refl h
  Step-IsSound {s} (registers r) h = same_limits-IsSound s _ refl h

  -- From a store of good limits, whatever requests from any sender, packets of amounts that are not
  -- negative, acknowledgements, timeouts, blocks and whitelist changes come, every stored limit stands under its own key, its net outflow is within what its
  -- quota admits, its period is not empty and its percentages are between 0 and 100.
  pub Reach-IsSound : {s t : State} → IsSound s → Reach s t → IsSound t
  Reach-IsSound h here = h
  Reach-IsSound h (next steps step) = Step-IsSound step (Reach-IsSound h steps)
