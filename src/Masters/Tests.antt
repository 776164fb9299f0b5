-- ===== src/Masters/Tests.antt =====
-- The masters at concrete inputs.
use fraudhunter.Common.{String, none, some, List, [], ◌∷◌, arith}
use fraudhunter.Masters.Tables.{
  MasterMedia, MasterPromotion, MasterUser, Masters, MediaEntry, PromotionEntry, UserEntry, plain,
}
use fraudhunter.Masters.Store.{
  media_row, promotion_row, user_row, bulk_upsert_media, bulk_upsert_promotions, bulk_upsert_users,
}
use fraudhunter.Masters.Synced.{IsKeyed, Upserts, is_refused, bulk_upserts_lem}

abbrev dumps : List String → String
dumps ss = "[]"

-- A medium that is renamed, twice, and a user without a name.
abbrev masters : Masters
masters = record {
  media = record { id = "m"; name = "old"; user_id = none; state = none; updated_at = 1 } ∷ [];
  promotions = [];
  users = [];
}

abbrev media : List MediaEntry
media =
    record { id = some "m"; name = some "new"; user = none; state = none }
    ∷ record { id = some "m"; name = some "newer"; user = none; state = none }
    ∷ []

abbrev promotions : List PromotionEntry
promotions =
    record {
      id = some "p";
      name = some "";
      state = none;
      action_double_state = none;
      action_double_type_json = plain "x";
    }
    ∷ []

abbrev users : List UserEntry
users = record { id = some "u"; name = none; company = none; state = none } ∷ []

masters-IsKeyed : IsKeyed masters
masters-IsKeyed = record {
  media = λ k. ground arith;
  promotions = λ k. omega arith;
  users = λ k. omega arith;
}

bulk_upserts_lem_example :
    Upserts MasterMedia.id
      (media_row 5 dumps)
      (λ (e : MediaEntry). is_refused e.id e.name)
      media
      masters.media
      (bulk_upsert_media 5 dumps media masters.media)
    × Upserts MasterPromotion.id
        (promotion_row 5 dumps)
        (λ (e : PromotionEntry). is_refused e.id e.name)
        promotions
        masters.promotions
        (bulk_upsert_promotions 5 dumps promotions masters.promotions)
    × Upserts MasterUser.id
        (user_row 5 dumps)
        (λ (e : UserEntry). is_refused e.id e.name)
        users
        masters.users
        (bulk_upsert_users 5 dumps users masters.users)
bulk_upserts_lem_example = bulk_upserts_lem 5 dumps media promotions users masters masters-IsKeyed
