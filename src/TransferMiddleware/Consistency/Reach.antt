-- ===== src/TransferMiddleware/Consistency/Reach.antt =====
-- The requests and blocks that change the registry, and what they keep
-- (x/transfermiddleware/keeper/msg_server.go and abci.go).
use composable_centauri.Base.{◌≡◌, true, false, arith, Bool-cases, inl, inr}
use composable_centauri.Base.Int.{ℤ}
use composable_centauri.Base.Bytes.{Bytes, eq_bytes}
use composable_centauri.Kv.{Kv}
use composable_centauri.Base.Exec.{err}
use composable_centauri.TransferMiddleware.Registry.{Registry, invalid_signer}
use composable_centauri.TransferMiddleware.Keeper.{
  add_parachain_ibc_info, begin_blocker, add_parachain_ibc_token_info,
  remove_parachain_ibc_token_info, add_rly_address,
}
use composable_centauri.TransferMiddleware.Consistency.{
  IsConsistent, add_parachain_ibc_info-IsConsistent, iterate_remove_list-IsConsistent,
}

module _ ⦃kv : Kv⦄ where
  -- What can happen to the registry: a request from any sender, or a block.
  pub data Step (r : Registry) : Registry → Type 0 where
    adds : (sender d c n a : Bytes) → Step r (add_parachain_ibc_token_info sender d c n a r).1
    removes :
        (time : ℤ) (sender n : Bytes) → Step r (remove_parachain_ibc_token_info time sender n r).1
    allows : (sender a : Bytes) → Step r (add_rly_address sender a r).1
    blocks : (time : ℤ) → Step r (begin_blocker time r)

  pub data Reach (r : Registry) : Registry → Type 0 where
    here : Reach r r
    next : {s t : Registry} → Reach r s → Step s t → Reach r t

  -- Those fields decide consistency.
  same_indices-IsConsistent :
      (r s : Registry)
      → s.info_by_native_denom ≡ r.info_by_native_denom
      → s.info_by_asset_id ≡ r.info_by_asset_id
      → s.native_denom_by_ibc_denom ≡ r.native_denom_by_ibc_denom
      → IsConsistent r
      → IsConsistent s
  same_indices-IsConsistent r s p q o h = record {
    native = rw (p, q, o) h.native;
    asset = rw (p, q) h.asset;
    ibc_known = rw (p, o) h.ibc_known;
    ibc_same = rw (p, o) h.ibc_same;
  }

  granted :
      (sender d c n a : Bytes) (r : Registry)
      → eq_bytes r.authority sender ≡ true
      → add_parachain_ibc_token_info sender d c n a r ≡ add_parachain_ibc_info d c n a r
  unfolding add_parachain_ibc_token_info
  granted sender d c n a r e = ground arith

  refused :
      (sender d c n a : Bytes) (r : Registry)
      → eq_bytes r.authority sender ≡ false
      → add_parachain_ibc_token_info sender d c n a r ≡ (err invalid_signer, r)
  unfolding add_parachain_ibc_token_info
  refused sender d c n a r e = ground arith

  Step-IsConsistent : {r s : Registry} → Step r s → IsConsistent r → IsConsistent s
  unfolding remove_parachain_ibc_token_info add_rly_address begin_blocker
  Step-IsConsistent {r} (adds sender d c n a) h = elim (Bool-cases (eq_bytes r.authority sender)) [
    | inl e ↦ rw (granted sender d c n a r e) (add_parachain_ibc_info-IsConsistent d c n a r h)
    | inr e ↦ rw (refused sender d c n a r e) h
  ]
  Step-IsConsistent {r} (removes time sender n) h =
      same_indices-IsConsistent r _ (ground arith) (ground arith) (ground arith) h
  Step-IsConsistent {r} (allows sender a) h =
      same_indices-IsConsistent r _ (ground arith) (ground arith) (ground arith) h
  Step-IsConsistent {r} (blocks time) h =
      iterate_remove_list-IsConsistent time (kv.entries r.remove_list) r h

  -- From a consistent registry, whatever requests and blocks come, each entry of the three indices
  -- belongs to one info that all three hold.
  pub Reach-IsConsistent : {r s : Registry} → IsConsistent r → Reach r s → IsConsistent s
  Reach-IsConsistent h here = h
  Reach-IsConsistent h (next steps step) = Step-IsConsistent step (Reach-IsConsistent h steps)
