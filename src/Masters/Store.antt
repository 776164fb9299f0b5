-- ===== src/Masters/Store.antt =====
-- `MasterRepository` of `repositories/master.py`. What `now_local()` returns and `json.dumps` of a list are
-- arguments.
use fraudhunter.Common.{
  ℕ, String, Option, none, some, List, [], ◌∷◌, ◌++◌, map, max, str_eq, length, upsert, upsert_all,
}
use fraudhunter.Common.Int.{ℤ}
use fraudhunter.Common.Result.{Result, ok, err, integrity_error, ◌>>=◌}
use fraudhunter.Masters.Tables.{
  MasterMedia, MasterPromotion, MasterUser, Masters, DoubleType, absent, plain, listed, MediaEntry,
  PromotionEntry, UserEntry,
}

-- A column that is not nullable.
abbrev pub not_null : Option String → Result String
not_null none = err integrity_error
not_null (some s) = ok s

-- The row of each entry. One that the table refuses undoes the whole statement.
abbrev pub rows_of {ℓ κ} : {E : Type ℓ} {A : Type κ} → (E → Result A) → List E → Result (List A)
rows_of row [] = ok []
rows_of row (e ∷ es) = do r ← row e; rs ← rows_of row es; ok (r ∷ rs)

-- The `set_` of each statement: all columns but the id.
abbrev pub put_media : MasterMedia → MasterMedia → MasterMedia
put_media row old = record old {
  name = row.name;
  user_id = row.user_id;
  state = row.state;
  updated_at = row.updated_at;
}

abbrev pub put_promotion : MasterPromotion → MasterPromotion → MasterPromotion
put_promotion row old = record old {
  name = row.name;
  state = row.state;
  action_double_state = row.action_double_state;
  action_double_type_json = row.action_double_type_json;
  updated_at = row.updated_at;
}

abbrev pub put_user : MasterUser → MasterUser → MasterUser
put_user row old = record old {
  name = row.name;
  company = row.company;
  state = row.state;
  updated_at = row.updated_at;
}

-- `json.dumps(value, ensure_ascii=False) if isinstance(value, list) else value`
abbrev pub double_type_value : (dumps : List String → String) → DoubleType → Option String
double_type_value dumps absent = none
double_type_value dumps (plain s) = some s
double_type_value dumps (listed ss) = some (dumps ss)

module _ (now : ℕ) (dumps : List String → String) where
  abbrev pub media_row : MediaEntry → Result MasterMedia
  media_row m = do
    id ← not_null m.id
    name ← not_null m.name
    ok (record { id = id; name = name; user_id = m.user; state = m.state; updated_at = now })

  abbrev pub promotion_row : PromotionEntry → Result MasterPromotion
  promotion_row p = do
    id ← not_null p.id
    name ← not_null p.name
    ok (record {
      id = id;
      name = name;
      state = p.state;
      action_double_state = p.action_double_state;
      action_double_type_json = double_type_value dumps p.action_double_type_json;
      updated_at = now;
    })

  abbrev pub user_row : UserEntry → Result MasterUser
  user_row u = do
    id ← not_null u.id
    name ← not_null u.name
    ok (record { id = id; name = name; company = u.company; state = u.state; updated_at = now })

  -- `upsert_media`
  unfoldable pub upsert_media :
      (media_id name : String) (user_id state : Option String) → List MasterMedia → List MasterMedia
  upsert_media media_id name user_id state t =
      let row : MasterMedia = record {
        id = media_id;
        name = name;
        user_id = user_id;
        state = state;
        updated_at = now;
      } in
      upsert MasterMedia.id str_eq (put_media row) row t

  -- `upsert_promotion`
  unfoldable pub upsert_promotion :
      (promotion_id name : String) (state : Option String) (action_double_state : Option ℤ)
      (action_double_type_json : DoubleType)
      → List MasterPromotion
      → List MasterPromotion
  upsert_promotion promotion_id name state action_double_state action_double_type_json t =
      let row : MasterPromotion = record {
        id = promotion_id;
        name = name;
        state = state;
        action_double_state = action_double_state;
        action_double_type_json = double_type_value dumps action_double_type_json;
        updated_at = now;
      } in
      upsert MasterPromotion.id str_eq (put_promotion row) row t

  -- `upsert_user`
  unfoldable pub upsert_user :
      (user_id name : String) (company state : Option String) → List MasterUser → List MasterUser
  upsert_user user_id name company state t =
      let row : MasterUser = record {
        id = user_id;
        name = name;
        company = company;
        state = state;
        updated_at = now;
      } in
      upsert MasterUser.id str_eq (put_user row) row t

  -- `bulk_upsert_media`; an empty list is 0 rows.
  unfoldable pub bulk_upsert_media :
      List MediaEntry → List MasterMedia → Result (ℕ × List MasterMedia)
  bulk_upsert_media media_list t = do
    rows ← rows_of media_row media_list
    ok (length rows, upsert_all MasterMedia.id str_eq put_media rows t)

  -- `bulk_upsert_promotions`
  unfoldable pub bulk_upsert_promotions :
      List PromotionEntry → List MasterPromotion → Result (ℕ × List MasterPromotion)
  bulk_upsert_promotions promo_list t = do
    rows ← rows_of promotion_row promo_list
    ok (length rows, upsert_all MasterPromotion.id str_eq put_promotion rows t)

  -- `bulk_upsert_users`
  unfoldable pub bulk_upsert_users : List UserEntry → List MasterUser → Result (ℕ × List MasterUser)
  bulk_upsert_users user_list t = do
    rows ← rows_of user_row user_list
    ok (length rows, upsert_all MasterUser.id str_eq put_user rows t)

pub record Synced : Type 0 where
  pub media_count : ℕ
  pub promotion_count : ℕ
  pub user_count : ℕ
  pub last_synced_at : Option ℕ

-- `MAX(…)`
abbrev pub latest : List ℕ → Option ℕ
latest [] = none
latest (n ∷ ns) = elim (latest ns) [ none ↦ some n | some m ↦ some (max n m) ]

-- `get_all_masters`
unfoldable pub get_all_masters : Masters → Synced
get_all_masters m = record {
  media_count = length m.media;
  promotion_count = length m.promotions;
  user_count = length m.users;
  last_synced_at = latest (
      map MasterMedia.updated_at m.media
      ++ map MasterPromotion.updated_at m.promotions
      ++ map MasterUser.updated_at m.users);
}
