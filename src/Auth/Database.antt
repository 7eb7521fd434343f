-- ===== src/Auth/Database.antt =====
-- What the authorization engine asks of database.py, as a parameter: the answers during one event.
use hassio_access_control.Prelude.{ℕ, String, Bool, Option, List, ◌≡◌, refl, ◌⊎◌, inl, inr}
use hassio_access_control.Text.{Text}
use hassio_access_control.Schedule.{Schedule}
use hassio_access_control.Auth.Alarm.{Group}

-- a query returns or raises
pub data Answer (A : Type 0) : Type 0 where
  value : A → Answer A
  raised : Answer A

pub Answer-cases : {A : Type 0} (x : Answer A) → (x ≡ raised) ⊎ ((a : A) × (x ≡ value a))
Answer-cases raised = inl refl
Answer-cases (value a) = inr (a, refl)

pub record User : Type 0 where
  pub id : ℕ
  pub name : String
  pub status : Option Text

-- `LockType` of models.py, and any other text
pub data LockType : Type 0 where
  access_native ha_external other : LockType

pub record Lock : Type 0 where
  pub id : ℕ
  pub name : String
  pub lock_type : LockType
  pub hidden : Bool

-- `AccessRule` of models.py, as far as the engine reads it
pub record Rule : Type 0 where
  pub enabled : Bool
  pub schedule : Schedule

pub record Database : Type 0 where
  pub get_user_by_ulp_id : String → Answer (Option User)
  pub get_user_groups : ℕ → Answer (List Group)
  pub get_group_locks : ℕ → Answer (List ℕ)
  pub get_locks_for_location : String → Answer (List Lock)
  pub get_locks_by_entry_device : String → String → Answer (List Lock)
  pub get_rules_for_user_and_lock : ℕ → ℕ → Answer (Option Rule)
