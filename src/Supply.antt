-- ===== src/Supply.antt =====
-- The supply queries of custom/bank/keeper/keeper.go, which leave out what the bridge has escrowed.
-- The bank of the SDK and sdk.Coins are parameters.
use composable_centauri.Base.{true, false, Option, none, some, List, []}
use composable_centauri.Base.Bytes.{Bytes, eq_bytes}
use composable_centauri.Base.Exec.{Result, ok, err}
use composable_centauri.Kv.{Kv}
use composable_centauri.Fees.Config.{Coin}
use composable_centauri.TransferMiddleware.Registry.{Registry}
use composable_centauri.TransferMiddleware.Host.{Host, new_coin}
use composable_centauri.TransferMiddleware.Query.{get_total_escrowed_token}

pub data Error : Type 0 where
  empty_request invalid_denom internal : Error
  -- A panic of NewCoin or of Coins.Sub.
  panicked : Error

module _ ⦃host : Host⦄ where
  -- SupplyOf: the denom of the request, none where the request is nil.
  unfoldable pub supply_of : Option Bytes → host.World → Result Error Coin
  supply_of none w = err empty_request
  supply_of (some denom) w =
      let coin = new_coin denom (host.get_supply denom w) in
      elim (eq_bytes denom []) [
        | true ↦ err invalid_denom
        | false ↦ elim coin [ ok c ↦ ok c | err e ↦ err panicked ]
      ]

  module _ ⦃kv : Kv⦄ (Pagination PageResponse : Type 0)
      (get_paginated_total_supply : Pagination → host.World → Option (List Coin × PageResponse))
      (sub : List Coin → List Coin → Option (List Coin)) where
    -- TotalSupply: the page of the supply, less what is escrowed. Coins.Sub has no result where it
    -- panics.
    unfoldable pub total_supply :
        Registry → Pagination → host.World → Result Error (List Coin × PageResponse)
    unfolding get_total_escrowed_token
    total_supply r pagination w = elim (get_paginated_total_supply pagination w) [
      | none ↦ err internal
      | some (page, page_res) ↦ elim (sub page (get_total_escrowed_token r w)) [
        | none ↦ err panicked
        | some supply ↦ ok (supply, page_res)
      ]
    ]
