-- ===== src/Keeper/Node/Network/Checks.antt =====
-- The checks of `writeNetworkInfo` of keeper/network.go, and what it writes.
use safe.Prelude.{
  ℕ, ◌≡◌, ◌≢◌, ◌≤◌, ◌⊎◌, refl, GoString, Bool, true, false, ◌||◌, not, List, [], ◌∷◌, ◌++◌, Option,
  none, some, arith, ltb, ◌==◌, if◌then◌else◌, length, get_or, inl, inr, Bool-cases,
}
use safe.Prelude.Maybe.{guard, >>=-eq-some}
use safe.Common.Constants.{request_role_observer, chain_bitcoin, chain_litecoin}
use safe.Common.Chain.{safe_curve_chain}
use safe.Common.Hex.{decode_hex}
use safe.Common.Request.{Request}
use safe.Keeper.Store.Tables.{Db, NetworkInfo}
use safe.Keeper.Store.Tx.{
  Outcome, ok, err, panic, transact, commit, insert_one, update_one, update_multiple, update_rows,
  check_affected, deref, ◌>>=◌,
}
use safe.Keeper.Store.Schema.{finish_request}
use safe.Keeper.Store.Requests.{fail_request, write_action_result}
use safe.Keeper.Store.Networks.{read_latest_network_info, write_network_info_from_request}
use safe.Keeper.Node.Network.{
  Block, info_of, check_hash, verify_bitcoin_network_info, verify_ethereum_network_info, accept,
  verify_network_info, check_chain, is_stale, check_network_info, uint64_at, settle,
  write_network_info,
}

guard_passes : (b : Bool) → guard b ≡ some tt → b ≡ true
guard_passes true h = refl
guard_passes false h = cc

abbrev pub FeeOk : NetworkInfo → Type 0
FeeOk info =
    ((info.chain ≢ chain_bitcoin) × (info.chain ≢ chain_litecoin))
    ⊎ ((1 ≤ info.fee) × (info.fee ≤ 1000))

-- A test that leads elsewhere has failed.
else_branch :
    {A : Type 0} (b : Bool) (x y z : A) → x ≢ z → (if b then x else y) ≡ z → (b ≡ false) × (y ≡ z)
else_branch true x y z n h = absurd (n h)
else_branch false x y z n h = (refl, h)

accepted :
    (a b : NetworkInfo) (m : Option Bool) → accept a m ≡ some (some b) → (b ≡ a) × (m ≡ some true)
accepted a b none h = cc
accepted a b (some true) h = ground (arith, h)
accepted a b (some false) h = ground (arith, h)

module _ (rpc_get_block : ℕ → GoString → Option Block) where
  bitcoin_verified :
      (info : NetworkInfo) (old : Option NetworkInfo)
      → verify_bitcoin_network_info rpc_get_block info old ≡ some true
      → (1 ≤ info.fee) × (info.fee ≤ 1000) × (check_hash rpc_get_block true info old ≡ some tt)
  unfolding verify_bitcoin_network_info
  bitcoin_verified info old h =
      let (b, k) = else_branch (not (length info.hash == 64)) _ _ (some true) (ground arith) h in
      let (u, e, r) = >>=-eq-some (check_hash rpc_get_block true info old) _ k in
      (ground (arith, r), ground (arith, r), e)

  ethereum_verified :
      (info : NetworkInfo) (old : Option NetworkInfo)
      → verify_ethereum_network_info rpc_get_block info old ≡ some true
      → check_hash rpc_get_block false info old ≡ some tt
  unfolding verify_ethereum_network_info
  ethereum_verified info old h =
      let (b, k) = else_branch (not (length info.hash == 66)) _ _ (some true) (ground arith) h in
      let (u, e, r) = >>=-eq-some (check_hash rpc_get_block false info old) _ k in e

  -- What the switch on the chain has checked.
  record Verified (req : Request) (extra : GoString) (old : Option NetworkInfo) (info : NetworkInfo)
      : Type 0 where
    pub described : info ≡ info_of req extra info.hash
    pub fee_ok : FeeOk info
    pub forks : Bool
    pub hash_ok : check_hash rpc_get_block forks info old ≡ some tt

  not_written :
      (info : NetworkInfo) → ¬ ◌≡◌ {A = Option (Option NetworkInfo)} (some none) (some (some info))
  not_written info h = cc

  bitcoin_case :
      (req : Request) (extra hash : GoString) (old : Option NetworkInfo) (info : NetworkInfo)
      → accept
          (info_of req extra hash)
          (verify_bitcoin_network_info rpc_get_block (info_of req extra hash) old)
        ≡ some (some info)
      → Verified req extra old info
  bitcoin_case req extra hash old info h =
      let (e, v) = accepted (info_of req extra hash) info _ h in
      let (low, high, checked) = bitcoin_verified (info_of req extra hash) old v in
      record {
        described = rw e refl;
        fee_ok = rw e (inr (low, high));
        forks = true;
        hash_ok = rw e checked;
      }

  ethereum_case :
      (req : Request) (extra hash : GoString) (old : Option NetworkInfo) (info : NetworkInfo)
      → get_or extra 0 0 ≢ chain_bitcoin
      → get_or extra 0 0 ≢ chain_litecoin
      → accept
          (info_of req extra hash)
          (verify_ethereum_network_info rpc_get_block (info_of req extra hash) old)
        ≡ some (some info)
      → Verified req extra old info
  ethereum_case req extra hash old info n n' h =
      let (e, v) = accepted (info_of req extra hash) info _ h in
      record {
        described = rw e refl;
        fee_ok = rw e (inl (n, n'));
        forks = false;
        hash_ok = rw e (ethereum_verified (info_of req extra hash) old v);
      }

  described_info :
      (req : Request) (extra : GoString) (old : Option NetworkInfo) (info : NetworkInfo)
      → verify_network_info rpc_get_block req extra old ≡ some (some info)
      → Verified req extra old info
  unfolding verify_network_info
  described_info req extra old info h =
      elim (Bool-cases (get_or extra 0 0 == 1 || (get_or extra 0 0 == 5))) [
        | inl c ↦ bitcoin_case req extra _ old info (rw (verify_network_info, c) at h)
        | inr c ↦ elim (Bool-cases (get_or extra 0 0 == 2 || (get_or extra 0 0 == 6))) [
          | inl d ↦
              ethereum_case req extra _ old info (ground arith) (ground arith)
                (rw (verify_network_info, c, d) at h)
          | inr d ↦ absurd (not_written info (rw (verify_network_info, c, d) at h))
        ]
      ]

  chain_checked :
      (req : Request) (extra : GoString) (old : Option NetworkInfo) (info : NetworkInfo)
      → check_chain rpc_get_block req extra old ≡ some (some info)
      → Verified req extra old info × (safe_curve_chain req.curve ≡ some info.chain)
  unfolding check_chain
  chain_checked req extra old info h =
      let (chain, curve, k) = >>=-eq-some (safe_curve_chain req.curve) _ h in
      let (u, same, l) = >>=-eq-some (guard (get_or extra 0 0 == chain)) _ k in
      let v = described_info req extra old info l in
      let g = guard_passes (get_or extra 0 0 == chain) same in
      let c : chain ≡ get_or extra 0 0 = ground (arith, g) in
      let d : info.chain ≡ get_or extra 0 0 = rw v.described refl in (v, rw (d, ← c) curve)

  extra_checked :
      (req : Request) (db : Db) (extra : GoString) (info : NetworkInfo)
      → (if ltb (length extra) 17
            || is_stale
                (read_latest_network_info db (get_or extra 0 0) req.created_at)
                req
                (uint64_at 9 extra)
          then some none
          else check_chain rpc_get_block req extra
              (read_latest_network_info db (get_or extra 0 0) req.created_at))
        ≡ some (some info)
      → (is_stale (read_latest_network_info db info.chain req.created_at) req info.height ≡ false)
        × Verified req extra (read_latest_network_info db info.chain req.created_at) info
        × (safe_curve_chain req.curve ≡ some info.chain)
  extra_checked req db extra info h =
      let old = read_latest_network_info db (get_or extra 0 0) req.created_at in
      let stale = is_stale old req (uint64_at 9 extra) in
      let (b, k) =
        else_branch (ltb (length extra) 17 || stale) (some none)
          (check_chain rpc_get_block req extra old) (some (some info)) (not_written info) h in
      let (v, curve) = chain_checked req extra old info k in
      let d : info.chain ≡ get_or extra 0 0 = rw v.described refl in
      let t : info.height ≡ uint64_at 9 extra = rw v.described refl in
      let fresh : stale ≡ false = ground (arith, b) in (rw (d, t) fresh, simp d v, curve)

  -- What an info has passed before it is stored: the observer sent it, in the request whose id and
  -- time it carries, and its chain, fee and height are those of the extra; its chain is that of the curve; it is not below the latest info of its chain and not of
  -- the same request; its fee is in bounds; its hash is the latest one at the same height, or that
  -- of a block that the RPC knows at its height.
  pub record Checked (req : Request) (db : Db) (info : NetworkInfo) : Type 0 where
    pub role : req.role ≡ request_role_observer
    pub request : info.request_id ≡ req.id
    pub time : info.created_at ≡ req.created_at
    pub extra : GoString
    pub sent : decode_hex req.extra_hex ≡ some extra
    pub chain_sent : info.chain ≡ get_or extra 0 0
    pub fee_sent : info.fee ≡ uint64_at 1 extra
    pub height_sent : info.height ≡ uint64_at 9 extra
    pub curve : safe_curve_chain req.curve ≡ some info.chain
    pub not_stale :
        is_stale (read_latest_network_info db info.chain req.created_at) req info.height ≡ false
    pub fee_ok : FeeOk info
    pub forks : Bool
    pub hash_ok :
        check_hash rpc_get_block forks info (read_latest_network_info db info.chain req.created_at)
        ≡ some tt

  info_to_write :
      (req : Request) (db : Db) (info : NetworkInfo)
      → check_network_info rpc_get_block req db ≡ some (some info)
      → Checked req db info
  unfolding check_network_info
  info_to_write req db info h =
      let (u, role, h1) = >>=-eq-some (guard (req.role == request_role_observer)) _ h in
      let (extra, e, h2) = >>=-eq-some (decode_hex req.extra_hex) _ h1 in
      let (stale, v, curve) = extra_checked req db extra info h2 in
      let g = guard_passes (req.role == request_role_observer) role in
      record {
        role = ground (arith, g);
        request = rw v.described refl;
        time = rw v.described refl;
        extra = extra;
        sent = e;
        chain_sent = rw v.described refl;
        fee_sent = rw v.described refl;
        height_sent = rw v.described refl;
        curve = curve;
        not_stale = stale;
        fee_ok = v.fee_ok;
        forks = v.forks;
        hash_ok = v.hash_ok;
      }

settle_db : {A : Type 0} (a : A) (o : Outcome (Unit {0}) × Db) → (settle a o).1 ≡ o.1
settle_db a (ok u, db) = refl
settle_db a (err e, db) = refl
settle_db a (panic, db) = refl

module _ {T : Type 0} (serialize : List T → GoString) where
  failed_keeps_infos :
      (now : ℕ) (req : Request) (db : Db)
      → (transact (fail_request serialize now req [] []) db).1.network_infos ≡ db.network_infos
  unfolding transact fail_request update_one update_multiple update_rows check_affected
      write_action_result insert_one commit deref ◌>>=◌
  failed_keeps_infos now req db = ground arith

  written_info :
      (now : ℕ) (req : Request) (info : NetworkInfo) (db : Db)
      → ((transact (write_network_info_from_request serialize now info req) db).1.network_infos
          ≡ db.network_infos)
        ⊎ ((transact (write_network_info_from_request serialize now info req) db).1.network_infos
            ≡ db.network_infos ++ (info ∷ []))
  unfolding transact write_network_info_from_request finish_request update_one update_multiple
      update_rows check_affected write_action_result insert_one commit deref ◌>>=◌
  written_info now req info db = ground arith

  -- What the handler does for each result of the checks.
  after_checks :
      (rpc_get_block : ℕ → GoString → Option Block) (now : ℕ) (req : Request) (db : Db)
      (checks : Option (Option NetworkInfo))
      → check_network_info rpc_get_block req db ≡ checks
      → ((write_network_info serialize rpc_get_block now req db).1.network_infos ≡ db.network_infos)
        ⊎ ((info : NetworkInfo) × Checked rpc_get_block req db info
            × ((write_network_info serialize rpc_get_block now req db).1.network_infos
                ≡ db.network_infos ++ (info ∷ [])))
  unfolding write_network_info
  after_checks get now req db none e = inl (rw (write_network_info, e) refl)
  after_checks get now req db (some none) e = inl (
      rw (write_network_info, e, settle_db {A = List T × GoString}) (failed_keeps_infos now req db))
  after_checks get now req db (some (some info)) e = elim (written_info now req info db) [
    | inl k ↦ inl (rw (write_network_info, e, settle_db {A = List T × GoString}) k)
    | inr k ↦ inr (
      info,
      info_to_write get req db info e,
      rw (write_network_info, e, settle_db {A = List T × GoString}) k,
    )
  ]

  -- However a network info request ends, the infos that are stored stay as they are, or one is
  -- added at their end that the observer sent in this request, at the time of the request, with
  -- the chain, the fee and the height that stand in its extra, of the chain of the curve, not
  -- below the latest info of its chain and not of its request, with a fee from 1 to 1000 on
  -- Bitcoin and Litecoin, and with the latest hash at the same height, or that of a block that
  -- the RPC knows at its height.
  pub network_infos_after :
      (rpc_get_block : ℕ → GoString → Option Block) (now : ℕ) (req : Request) (db : Db)
      → ((write_network_info serialize rpc_get_block now req db).1.network_infos ≡ db.network_infos)
        ⊎ ((info : NetworkInfo) × Checked rpc_get_block req db info
            × ((write_network_info serialize rpc_get_block now req db).1.network_infos
                ≡ db.network_infos ++ (info ∷ [])))
  network_infos_after get now req db =
      after_checks get now req db (check_network_info get req db) refl
