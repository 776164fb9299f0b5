-- ===== src/Masters/Tables.antt =====
-- `MasterMedia`, `MasterPromotion` and `MasterUser` of `db/models.py`, and the dicts that the client returns.
use fraudhunter.Common.{ℕ, String, Option, List}
use fraudhunter.Common.Int.{ℤ}

pub record MasterMedia : Type 0 where
  pub id : String
  pub name : String
  pub user_id : Option String
  pub state : Option String
  pub updated_at : ℕ

pub record MasterPromotion : Type 0 where
  pub id : String
  pub name : String
  pub state : Option String
  pub action_double_state : Option ℤ
  pub action_double_type_json : Option String
  pub updated_at : ℕ

pub record MasterUser : Type 0 where
  pub id : String
  pub name : String
  pub company : Option String
  pub state : Option String
  pub updated_at : ℕ

-- The three tables, in a migrated database.
pub record Masters : Type 0 where
  pub media : List MasterMedia
  pub promotions : List MasterPromotion
  pub users : List MasterUser

-- `str | list[str] | None`
pub data DoubleType : Type 0 where
  absent : DoubleType
  plain : String → DoubleType
  listed : List String → DoubleType

-- The dicts of `fetch_media_master`, `fetch_promotion_master` and `fetch_user_master`. They have all keys; a
-- value is `None` where the ACS has a null.
pub record MediaEntry : Type 0 where
  pub id : Option String
  pub name : Option String
  pub user : Option String
  pub state : Option String

pub record PromotionEntry : Type 0 where
  pub id : Option String
  pub name : Option String
  pub state : Option String
  pub action_double_state : Option ℤ
  pub action_double_type_json : DoubleType

pub record UserEntry : Type 0 where
  pub id : Option String
  pub name : Option String
  pub company : Option String
  pub state : Option String
