-- ===== src/Masters/Synced.antt =====
-- What the bulk upserts leave in the tables of the masters.
use fraudhunter.Common.{
  ℕ, suc, String, Bool, true, false, ◌||◌, not, Option, none, some, List, [], ◌∷◌, ◌≡◌, refl, ap,
  arith, str_eq, is_some, length, exists_where, find_where, has, or_else, last_where, upsert_all,
  HasUniqueKeys, find-upsert_all, upsert_all-HasUniqueKeys,
}
use fraudhunter.Common.Int.{ℤ}
use fraudhunter.Common.Result.{Result, ok, err, integrity_error, ◌>>=◌}
use fraudhunter.Cases.Followups.{str-IsKey}
use fraudhunter.Masters.Tables.{
  MasterMedia, MasterPromotion, MasterUser, Masters, DoubleType, MediaEntry, PromotionEntry,
  UserEntry,
}
use fraudhunter.Masters.Store.{
  rows_of, put_media, put_promotion, put_user, media_row, promotion_row, user_row, upsert_media,
  upsert_promotion, upsert_user, bulk_upsert_media, bulk_upsert_promotions, bulk_upsert_users,
}

-- An entry without an id or a name.
abbrev pub is_refused : (id name : Option String) → Bool
is_refused id name = not (is_some id) || not (is_some name)

-- What a bulk upsert of the entries must answer on the table `t`: `IntegrityError` exactly if an entry is
-- refused; else the number of the entries, and a table with unique ids in which each id has the row of its
-- last entry or, without an entry, the row that it had.
abbrev pub Upserts :
    {E A : Type 0}
    → (key : A → String) (row : E → Result A) (refused : E → Bool) → List E
    → List A
    → Result (ℕ × List A)
    → Type 0
Upserts key row refused es t (err e) = (e ≡ integrity_error) × (exists_where refused es ≡ true)
Upserts key row refused es t (ok (n, u)) =
    (exists_where refused es ≡ false)
    × (n ≡ length es)
    × HasUniqueKeys key str_eq u
    × ((rows : List _) × (rows_of row es ≡ ok rows)
        × ((id : String)
            → find_where (has key str_eq id) u
              ≡ or_else (last_where (has key str_eq id) rows) (find_where (has key str_eq id) t)))

-- The rows of entries, or their refusal.
abbrev Rows :
    {E A : Type 0} → (row : E → Result A) (refused : E → Bool) → List E → Result (List A) → Type 0
Rows row refused es (err e) = (e ≡ integrity_error) × (exists_where refused es ≡ true)
Rows row refused es (ok rows) = (exists_where refused es ≡ false) × (length rows ≡ length es)

abbrev One : {A : Type 0} → (refused : Bool) → Result A → Type 0
One refused (err e) = (e ≡ integrity_error) × (refused ≡ true)
One refused (ok r) = refused ≡ false

module _ {E A : Type 0} (row : E → Result A) (refused : E → Bool) where
  Rows-cons :
      (e : E) (es : List E) (r : Result A) (rs : Result (List A))
      → One (refused e) r
      → Rows row refused es rs
      → Rows row refused (e ∷ es) (do a ← r; rest ← rs; ok (a ∷ rest))
  Rows-cons e es (err x) rs (bad, refuses) all = (bad, rw refuses refl)
  Rows-cons e es (ok a) (err x) fine (bad, refuses) = (bad, ground (arith, refuses))
  Rows-cons e es (ok a) (ok rest) fine (good, count) = (rw fine good, ap (λ n. suc n) count)

  rows_of-Rows :
      ((e : E) → One (refused e) (row e)) → (es : List E) → Rows row refused es (rows_of row es)
  rows_of-Rows one [] = (refl, refl)
  rows_of-Rows one (e ∷ es) = Rows-cons e es (row e) (rows_of row es) (one e) (rows_of-Rows one es)

  module _ (key : A → String) (put : A → A → A)
      (keeps : (row old : A) → key (put row old) ≡ key old)
      (replaces : (row old : A) → key old ≡ key row → put row old ≡ row) where
    stored-Upserts :
        (es : List E) (t : List A) (rows : Result (List A))
        → rows_of row es ≡ rows
        → Rows row refused es rows
        → HasUniqueKeys key str_eq t
        → Upserts key row refused es t
            (do rs ← rows; ok (length rs, upsert_all key str_eq put rs t))
    stored-Upserts es t (err e) at all unique = all
    stored-Upserts es t (ok rows) at (good, count) unique = (
      good,
      count,
      upsert_all-HasUniqueKeys key str_eq (str-IsKey key) put keeps rows t unique,
      (rows, at, find-upsert_all key str_eq (str-IsKey key) put keeps replaces rows t),
    )

    bulk-Upserts :
        (es : List E) (t : List A)
        → ((e : E) → One (refused e) (row e))
        → HasUniqueKeys key str_eq t
        → Upserts key row refused es t
            (do rs ← rows_of row es; ok (length rs, upsert_all key str_eq put rs t))
    bulk-Upserts es t one unique =
        stored-Upserts es t (rows_of row es) refl (rows_of-Rows one es) unique

media-One :
    (now : ℕ) (dumps : List String → String) (id name user state : Option String)
    → let m : MediaEntry = record { id = id; name = name; user = user; state = state } in
      One (is_refused id name) (media_row now dumps m)
media-One now dumps none name user state = (refl, refl)
media-One now dumps (some i) none user state = (refl, refl)
media-One now dumps (some i) (some n) user state = refl

promotion-One :
    (now : ℕ) (dumps : List String → String) (id name state : Option String) (double : Option ℤ)
    (ty : DoubleType)
    → let p : PromotionEntry = record {
      id = id;
      name = name;
      state = state;
      action_double_state = double;
      action_double_type_json = ty;
    } in
      One (is_refused id name) (promotion_row now dumps p)
promotion-One now dumps none name state double ty = (refl, refl)
promotion-One now dumps (some i) none state double ty = (refl, refl)
promotion-One now dumps (some i) (some n) state double ty = refl

user-One :
    (now : ℕ) (dumps : List String → String) (id name company state : Option String)
    → let u : UserEntry = record { id = id; name = name; company = company; state = state } in
      One (is_refused id name) (user_row now dumps u)
user-One now dumps none name company state = (refl, refl)
user-One now dumps (some i) none company state = (refl, refl)
user-One now dumps (some i) (some n) company state = refl

-- The ids of the three tables are unique.
pub record IsKeyed (m : Masters) : Type 0 where
  pub media : HasUniqueKeys MasterMedia.id str_eq m.media
  pub promotions : HasUniqueKeys MasterPromotion.id str_eq m.promotions
  pub users : HasUniqueKeys MasterUser.id str_eq m.users

module _ (now : ℕ) (dumps : List String → String) where
  -- On tables with unique ids, each bulk upsert answers as `Upserts` says: it is refused exactly if an entry
  -- has no id or no name, and else returns the number of the entries and leaves each id its last entry.
  pub bulk_upserts_lem :
      (media : List MediaEntry) (promotions : List PromotionEntry) (users : List UserEntry)
      (m : Masters)
      → IsKeyed m
      → Upserts MasterMedia.id
          (media_row now dumps)
          (λ (e : MediaEntry). is_refused e.id e.name)
          media
          m.media
          (bulk_upsert_media now dumps media m.media)
        × Upserts MasterPromotion.id
            (promotion_row now dumps)
            (λ (e : PromotionEntry). is_refused e.id e.name)
            promotions
            m.promotions
            (bulk_upsert_promotions now dumps promotions m.promotions)
        × Upserts MasterUser.id
            (user_row now dumps)
            (λ (e : UserEntry). is_refused e.id e.name)
            users
            m.users
            (bulk_upsert_users now dumps users m.users)
  unfolding bulk_upsert_media bulk_upsert_promotions bulk_upsert_users
  bulk_upserts_lem media promotions users m keyed = (
    bulk-Upserts (media_row now dumps) (λ (e : MediaEntry). is_refused e.id e.name) MasterMedia.id
        put_media (λ row old. refl)
        (λ row old same. ap (λ (i : String). record row { id = i }) same) media m.media
        (λ e. media-One now dumps e.id e.name e.user e.state) keyed.media,
    bulk-Upserts (promotion_row now dumps) (λ (e : PromotionEntry). is_refused e.id e.name)
        MasterPromotion.id put_promotion (λ row old. refl)
        (λ row old same. ap (λ (i : String). record row { id = i }) same) promotions m.promotions
        (λ e.
          promotion-One now dumps e.id e.name e.state e.action_double_state
            e.action_double_type_json)
        keyed.promotions,
    bulk-Upserts (user_row now dumps) (λ (e : UserEntry). is_refused e.id e.name) MasterUser.id
        put_user (λ row old. refl) (λ row old same. ap (λ (i : String). record row { id = i }) same)
        users m.users (λ e. user-One now dumps e.id e.name e.company e.state) keyed.users,
  )

  -- The upsert of one row is the bulk upsert of its entry.
  upserts_agree :
      (i n : String) (s s' : Option String) (d : Option ℤ) (ty : DoubleType) (m : Masters)
      → (bulk_upsert_media now dumps
            (record { id = some i; name = some n; user = s; state = s' } ∷ [])
            m.media
          ≡ ok (1, upsert_media now dumps i n s s' m.media))
        × (bulk_upsert_promotions now dumps
              (record {
                id = some i;
                name = some n;
                state = s;
                action_double_state = d;
                action_double_type_json = ty;
              }
                ∷ [])
              m.promotions
            ≡ ok (1, upsert_promotion now dumps i n s d ty m.promotions))
        × (bulk_upsert_users now dumps
              (record { id = some i; name = some n; company = s; state = s' } ∷ [])
              m.users
            ≡ ok (1, upsert_user now dumps i n s s' m.users))
  unfolding bulk_upsert_media bulk_upsert_promotions bulk_upsert_users upsert_media upsert_promotion
      upsert_user
  upserts_agree i n s s' d ty m = (refl, refl, refl)
