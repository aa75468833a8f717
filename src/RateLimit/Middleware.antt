-- ===== src/RateLimit/Middleware.antt =====
-- The callbacks of the middleware around the transfer application (x/ratelimit/ibc_middleware.go).
-- The application below is a parameter: what it answers to a packet, and what it does to a world of its
-- own (the bank, the accounts), which the limits' store is no part of.
pub mod Recv
use composable_centauri.Base.Bytes.{Bytes}
use composable_centauri.Base.Exec.{ok, err, Exec, ◌>>◌}
use composable_centauri.Kv.{Kv}
use composable_centauri.Sdk.{Sdk, Packet}
use composable_centauri.RateLimit.State.{Error, State, Action}
use composable_centauri.RateLimit.Packet.{
  receive_rate_limited_packet, acknowledge_rate_limited_packet, timeout_rate_limited_packet,
}

-- An acknowledgement to write: the error of this middleware, or what the application answered.
pub data Answer : Type 0 where
  denied : Error → Answer
  answered : Bytes → Answer

pub record Application (World : Type 0) : Type 0 where
  pub receives : Packet → World → Bytes × World
  pub acknowledges : Packet → Bytes → Exec Error World (Unit {0})
  pub times_out : Packet → Exec Error World (Unit {0})

module _ ⦃sdk : Sdk⦄ ⦃kv : Kv⦄ {World : Type 0} where
  -- A call of the keeper, and one of the application.
  abbrev pub on_limits : Action (Unit {0}) → Exec Error (State × World) (Unit {0})
  on_limits call (s, w) = let (r, s') = call s in (r, (s', w))

  abbrev pub on_application : Exec Error World (Unit {0}) → Exec Error (State × World) (Unit {0})
  on_application call (s, w) = let (r, w') = call w in (r, (s, w'))

  -- OnRecvPacket
  unfoldable pub on_recv_packet :
      Application World → Packet → State × World → Answer × (State × World)
  on_recv_packet app packet (s, w) =
      let (r, s') = receive_rate_limited_packet packet s in
      elim r [
        | ok _ ↦ let (answer, w') = app.receives packet w in (answered answer, (s', w'))
        | err e ↦ (denied e, (s', w))
      ]

  -- OnAcknowledgementPacket
  unfoldable pub on_acknowledgement_packet :
      Application World → Packet → Bytes → Exec Error (State × World) (Unit {0})
  on_acknowledgement_packet app packet ack = do
    on_limits (acknowledge_rate_limited_packet packet ack)
    on_application (app.acknowledges packet ack)

  -- OnTimeoutPacket
  unfoldable pub on_timeout_packet :
      Application World → Packet → Exec Error (State × World) (Unit {0})
  on_timeout_packet app packet = do
    on_limits (timeout_rate_limited_packet packet)
    on_application (app.times_out packet)
