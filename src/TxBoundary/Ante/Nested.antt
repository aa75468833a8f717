-- ===== src/TxBoundary/Ante/Nested.antt =====
-- Messages packed in other messages count like those that are not.
use composable_centauri.Base.{◌≡◌, refl, sym, ◌∙◌}
use composable_centauri.Base.Int.{ℤ}
use composable_centauri.Base.Exec.{◌>>◌, then-same, then_assoc, then-unit}
use composable_centauri.Kv.{Kv}
use composable_centauri.Sdk.{Sdk}
use composable_centauri.TxBoundary.Keeper.{State}
use composable_centauri.TxBoundary.Ante.{
  Msg, Msgs, msg_delegate, msg_begin_redelegate, msg_exec, msg_other, no_msgs, readable, unreadable,
  validate_staking_msg, valid_authz,
}

unfoldable pub append : Msgs → Msgs → Msgs
append no_msgs rest = rest
append (readable msg msgs) rest = readable msg (append msgs rest)
append (unreadable msgs) rest = unreadable (append msgs rest)

-- The messages that are left when every execution is replaced by what it packs.
unfoldable mutual
  pub flatten_msg : Msg → Msgs
  flatten_msg (msg_exec msgs) = flatten msgs
  flatten_msg (msg_delegate d) = readable (msg_delegate d) no_msgs
  flatten_msg (msg_begin_redelegate d) = readable (msg_begin_redelegate d) no_msgs
  flatten_msg msg_other = readable msg_other no_msgs

  pub flatten : Msgs → Msgs
  flatten no_msgs = no_msgs
  flatten (readable msg msgs) = append (flatten_msg msg) (flatten msgs)
  flatten (unreadable msgs) = unreadable (flatten msgs)

module _ ⦃sdk : Sdk⦄ ⦃kv : Kv⦄ where
  valid_authz-append :
      (h : ℤ) (msgs rest : Msgs) (s : State)
      → valid_authz h (append msgs rest) s ≡ (valid_authz h msgs >> valid_authz h rest) s
  unfolding append valid_authz
  valid_authz-append h no_msgs rest s = refl
  valid_authz-append h (readable msg msgs) rest s =
      then-same (validate_staking_msg h msg) (validate_staking_msg h msg)
        (valid_authz h (append msgs rest)) (valid_authz h msgs >> valid_authz h rest) s refl
        (λ t. valid_authz-append h msgs rest t)
      ∙ sym (then_assoc (validate_staking_msg h msg) (valid_authz h msgs) (valid_authz h rest) s)
  valid_authz-append h (unreadable msgs) rest s = refl

  single :
      (h : ℤ) (msg : Msg) (s : State)
      → validate_staking_msg h msg s ≡ valid_authz h (readable msg no_msgs) s
  unfolding valid_authz
  single h msg s = sym (then-unit (validate_staking_msg h msg) s)

  mutual
    unfolding flatten valid_authz

    msg-flatten :
        (h : ℤ) (msg : Msg) (s : State)
        → validate_staking_msg h msg s ≡ valid_authz h (flatten_msg msg) s
    msg-flatten h (msg_exec msgs) s = msgs-flatten h msgs s
    msg-flatten h (msg_delegate d) s = single h (msg_delegate d) s
    msg-flatten h (msg_begin_redelegate d) s = single h (msg_begin_redelegate d) s
    msg-flatten h msg_other s = refl

    msgs-flatten :
        (h : ℤ) (msgs : Msgs) (s : State) → valid_authz h msgs s ≡ valid_authz h (flatten msgs) s
    msgs-flatten h no_msgs s = refl
    msgs-flatten h (readable msg msgs) s =
        then-same (validate_staking_msg h msg) (valid_authz h (flatten_msg msg))
          (valid_authz h msgs) (valid_authz h (flatten msgs)) s (msg-flatten h msg s)
          (λ t. msgs-flatten h msgs t)
        ∙ sym (valid_authz-append h (flatten_msg msg) (flatten msgs) s)
    msgs-flatten h (unreadable msgs) s = refl

  -- A transaction whose messages are packed in executions, to any depth, is checked and counted as
  -- one that carries the same messages side by side.
  pub valid_authz-flatten :
      (h : ℤ) (msgs : Msgs) (s : State) → valid_authz h msgs s ≡ valid_authz h (flatten msgs) s
  valid_authz-flatten h msgs s = msgs-flatten h msgs s
