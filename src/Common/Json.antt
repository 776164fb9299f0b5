-- ===== src/Common/Json.antt =====
-- The JSON values that job parameters and results hold.
use fraudhunter.Common.{ℕ, String, Bool}

mutual
  pub data Json : Type 0 where
    null : Json
    num : ℕ → Json
    flag : Bool → Json
    text : String → Json
    arr : Items → Json
    obj : Fields → Json

  pub data Items : Type 0 where
    nil : Items
    cons : Json → Items → Items

  pub data Fields : Type 0 where
    end : Fields
    field : String → Json → Fields → Fields
