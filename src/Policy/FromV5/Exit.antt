-- ===== src/Policy/FromV5/Exit.antt =====
-- The exit binding of a v5 policy: the last check of `from_v5` of
-- zkvm/crates/stf-core/src/policy/from_v5.rs.
use zkdeal_prover.Prelude.{
  not, ◌||◌, Option, none, some, List, [], ◌∷◌, ltb, leb, ◌==◌, ◌!=◌, if◌then◌else◌, is_some_and,
  is_none, length, any, Result, ok, err, ◌>>◌, reject_if,
}
use zkdeal_prover.Prelude.Map.{Map, lookup}
use zkdeal_prover.StfTypes.Scalars.{Address, B256}
use zkdeal_prover.StfTypes.Limits.{max_exit_assets_v5}
use zkdeal_prover.StfTypes.V5.{CertifiedImportBindingV5, ExitAssetBindingV5, ExitBindingV5}
use zkdeal_prover.Policy.{
  PolicyRefusal, exit_binding_invalid, exit_slots_read_only, import_writes_queue,
  too_many_exit_assets, exit_assets_unsorted, native_asset_invalid, token_asset_invalid,
  asset_kind_invalid, StorageNamespace, is_writable,
}

-- The dispatch on the kind of an asset.
unfoldable pub validate_exit_asset : Map B256 → ExitAssetBindingV5 → Result PolicyRefusal (Unit {0})
validate_exit_asset code_hashes asset =
    if asset.kind == 0
    then reject_if (asset.asset != 0 || asset.token != 0 || asset.balance_slot != 0)
        native_asset_invalid
    else if asset.kind == 1
    then reject_if
        (asset.asset == 0 || asset.token == 0 || is_none (lookup asset.token code_hashes))
        token_asset_invalid
    else err asset_kind_invalid

-- The loop over the assets, with the one before.
unfoldable pub validate_exit_assets :
    Map B256 → Option Address → List ExitAssetBindingV5 → Result PolicyRefusal (Unit {0})
unfolding validate_exit_asset
validate_exit_assets code_hashes previous [] = ok tt
validate_exit_assets code_hashes previous (asset ∷ assets) = do
  reject_if (is_some_and previous (λ before. leb asset.asset before)) exit_assets_unsorted
  validate_exit_asset code_hashes asset
  validate_exit_assets code_hashes (some asset.asset) assets

unfoldable pub validate_queue :
    Map B256
    → List StorageNamespace
    → List CertifiedImportBindingV5
    → Address
    → ExitBindingV5
    → Result PolicyRefusal (Unit {0})
unfolding validate_exit_assets
validate_queue code_hashes namespaces imports registry exit = do
  reject_if
      (exit.queue_contract == 0
        || is_none (lookup exit.queue_contract code_hashes)
        || exit.queue_contract == registry
        || exit.fallback_recipient == 0)
      exit_binding_invalid
  reject_if
      (not (is_writable namespaces exit.queue_contract exit.count_slot)
        || not (is_writable namespaces exit.queue_contract exit.records_base_slot))
      exit_slots_read_only
  reject_if
      (any (λ (binding : CertifiedImportBindingV5). binding.room_contract == exit.queue_contract)
        imports)
      import_writes_queue
  reject_if (ltb max_exit_assets_v5 (length exit.assets)) too_many_exit_assets
  validate_exit_assets code_hashes none exit.assets

unfoldable pub validate_exit_binding :
    Map B256
    → List StorageNamespace
    → List CertifiedImportBindingV5
    → Address
    → Option ExitBindingV5
    → Result PolicyRefusal (Unit {0})
unfolding validate_queue
validate_exit_binding code_hashes namespaces imports registry none = ok tt
validate_exit_binding code_hashes namespaces imports registry (some exit) =
    validate_queue code_hashes namespaces imports registry exit
