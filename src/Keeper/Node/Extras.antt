-- ===== src/Keeper/Node/Extras.antt =====
-- keeper/request.go (readStorageExtraFromObserver) and the extras that the handlers read: that of
-- a referenced transaction of the kernel, and the uuid at the start of an extra.
use safe.Prelude.{
  ℕ, GoString, Bool, false, [], ◌∷◌, not, leb, ◌==◌, if◌then◌else◌, length, take, drop, str_eq,
}
use safe.Prelude.Text.{codes}
use safe.Common.Hex.{encode_hex}
use safe.Common.Request.{Request}
use safe.Keeper.Node.World.{Node, KernelTransaction}
use safe.Keeper.Node.Handler.{Handler, pure, need, require, ◌>>=◌, ◌>>◌, found}

-- uuid.Nil.String()
abbrev pub nil_uuid : GoString
nil_uuid = codes "00000000-0000-0000-0000-000000000000"

-- Whether the only reference of a transaction is the given text.
unfoldable pub is_only_reference : GoString → KernelTransaction → Bool
is_only_reference text ver = elim ver.references [
  | [] ↦ false
  | r ∷ rs ↦ elim rs [ [] ↦ str_eq r text | _ ∷ _ ↦ false ]
]

module _ {T E D : Type 0} (node : Node T E D) where
  -- readStorageExtraFromObserver
  unfoldable pub read_storage_extra : GoString → Handler T GoString
  read_storage_extra ref = do
    ver ← need (node.group.read_kernel_transaction ref)
    let raw = node.crypto.aes_decrypt node.conf.observer_aes_key ver.extra
    require (leb 16 (length raw))
    pure (drop 16 raw)

  -- Whether an extra of 32 bytes is the only reference of the request's transaction.
  unfoldable pub is_reference : Request → GoString → Handler T Bool
  unfolding is_only_reference
  is_reference req extra = if not (length extra == 32) then pure false else do
    ver ← need (node.group.read_kernel_transaction req.mixin_hash)
    pure (is_only_reference (encode_hex extra) ver)

  -- The extra of the transaction that an extra references.
  unfoldable pub read_reference : GoString → Handler T GoString
  read_reference extra = do
    stx ← need (node.group.read_kernel_transaction (encode_hex extra))
    pure stx.extra

  -- The extra of a proposal of an account, or that of the transaction which it references.
  unfoldable pub proposal_extra : Request → GoString → Handler T GoString
  unfolding is_reference read_reference
  proposal_extra req extra = do
    referenced ← is_reference req extra
    if referenced then read_reference extra else pure extra

module _ {T E D : Type 0} (node : Node T E D) (now : ℕ) (req : Request) where
  -- The uuid at the start of an extra.
  unfoldable pub leading_uuid : GoString → Handler T GoString
  leading_uuid extra = found node now req (node.uuid.format (take 16 extra))
