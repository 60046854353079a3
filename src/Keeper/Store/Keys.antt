-- ===== src/Keeper/Store/Keys.antt =====
-- keeper/store/key.go
use safe.Prelude.{
  ℕ, ◌+◌, GoString, Bool, true, false, ◌&&◌, ◌||◌, not, List, [], Option, none, some, str_eq,
  str_lt, ltb, ◌==◌, if◌then◌else◌, find, least, filter, count,
}
use safe.Common.Constants.{
  request_role_signer, request_role_observer, request_flag_none, request_flag_custom_observer_key,
}
use safe.Common.Chain.{normalize_curve}
use safe.Common.Request.{Request}
use safe.Common.Hex.{encode_hex}
use safe.Keeper.Store.Tables.{Db, Key}
use safe.Keeper.Store.Clashes.{null_eq}
use safe.Keeper.Store.Tx.{
  Tx, pure, query, deref, ◌>>=◌, ◌>>◌, assert, commit, insert_one, update_unique,
}
use safe.Keeper.Store.Schema.{keys, finish_request}
use safe.Keeper.Store.Requests.{write_action_result}

-- `holder IS NULL`
abbrev pub is_null : Option GoString → Bool
is_null none = true
is_null (some h) = false

-- ReadKey
unfoldable pub read_key : Db → GoString → Option Key
read_key db public = find (λ (k : Key). str_eq k.public public) db.keys

-- CountSpareKeys
unfoldable pub count_spare_keys : Db → ℕ → ℕ → ℕ → ℕ
count_spare_keys db curve flags role =
    count
      (λ (k : Key). k.role == role && (k.curve == curve) && (k.flags == flags) && is_null k.holder)
      db.keys

-- keyValsFromRequest
unfoldable pub key_from_request : Request → ℕ → GoString → ℕ → Key
key_from_request req role extra flags = record {
  public = req.holder;
  curve = req.curve;
  request_id = req.id;
  role = role;
  extra = encode_hex extra;
  flags = flags;
  holder = none;
  created_at = req.created_at;
  updated_at = req.created_at;
}

module _ {T : Type 0} (serialize : List T → GoString) where
  -- WriteKeyFromRequest
  unfoldable pub write_key_from_request : ℕ → Request → ℕ → GoString → ℕ → Tx (Unit {0})
  write_key_from_request now req role extra flags = do
    curve ← deref (normalize_curve req.curve)
    assert (curve == req.curve)
    insert_one keys (key_from_request req role extra flags)
    finish_request now req.id
    output ← deref req.output
    write_action_result serialize now output.output_id [] [] req.id
    commit

-- The public key of a row, or the empty string where there is none.
abbrev pub public_or_empty : Option Key → GoString
public_or_empty none = []
public_or_empty (some k) = k.public

-- readKeyWithRoleAndHolder
unfoldable pub read_key_with_role_and_holder : GoString → ℕ → Db → GoString
read_key_with_role_and_holder holder role db =
    public_or_empty (find (λ (k : Key). null_eq k.holder (some holder) && (k.role == role)) db.keys)

-- ORDER BY created_at ASC, public_key ASC
abbrev pub key_before : Key → Key → Bool
key_before a b =
    ltb a.created_at b.created_at || ((a.created_at == b.created_at) && str_lt a.public b.public)

-- A spare key of a role and a curve, mature at `now`, or the preferred key.
abbrev pub is_spare : ℕ → ℕ → Key → Bool
is_spare role crv k = is_null k.holder && (k.role == role) && (k.curve == crv)

abbrev pub is_mature_spare : ℕ → ℕ → ℕ → ℕ → Key → Bool
is_mature_spare now role crv maturity k =
    is_spare role crv k && (k.flags == request_flag_none) && ltb (k.created_at + maturity) now

abbrev pub is_preferred_spare : ℕ → ℕ → GoString → Key → Bool
is_preferred_spare role crv pref k =
    is_spare role crv k && (k.flags == request_flag_custom_observer_key) && str_eq k.public pref

-- readKeyWithRoleAndCurve
unfoldable pub read_key_with_role_and_curve : ℕ → ℕ → ℕ → ℕ → GoString → Db → GoString
read_key_with_role_and_curve now role crv maturity pref db =
    if str_eq pref []
    then public_or_empty (least key_before (filter (is_mature_spare now role crv maturity) db.keys))
    else public_or_empty (find (is_preferred_spare role crv pref) db.keys)

-- UPDATE keys SET holder=?, updated_at=? WHERE public_key=? AND holder IS NULL AND role=? AND curve=?
unfoldable pub set_key_holder : Request → GoString → ℕ → ℕ → Tx (Unit {0})
set_key_holder req public role crv =
    update_unique keys
      (λ k. str_eq k.public public && is_null k.holder && (k.role == role) && (k.curve == crv))
      (λ k. record k { holder = some req.holder; updated_at = req.created_at })

-- AssignSignerAndObserverToHolder
unfoldable pub assign_signer_and_observer_to_holder :
    ℕ → Request → ℕ → GoString → Tx (GoString × GoString)
assign_signer_and_observer_to_holder now req maturity observer_pref = do
  signer ← query (read_key_with_role_and_holder req.holder request_role_signer)
  observer ← query (read_key_with_role_and_holder req.holder request_role_observer)
  if not (str_eq signer []) && not (str_eq observer []) then pure (signer, observer) else do
    assert (str_eq signer [] && str_eq observer [])
    crv ← deref (normalize_curve req.curve)
    signer' ← query (read_key_with_role_and_curve now request_role_signer crv maturity [])
    observer' ←
        query (read_key_with_role_and_curve now request_role_observer crv maturity observer_pref)
    if str_eq signer' [] || str_eq observer' [] then pure ([], []) else do
      set_key_holder req signer' request_role_signer crv
      set_key_holder req observer' request_role_observer crv
      commit
      pure (signer', observer')
