-- ===== src/Auth/Defs.antt =====
-- The data types of internal/auth (iam.go, service_account.go, session.go and policy.go), and the
-- values that encoding/json decodes into an interface{}.
use go_s.Prelude.{Bytes, Bool, Option, List}
use go_s.Storage.{Time}

pub record User : Type 0 where
  pub username : Bytes
  pub password_hash : Bytes
  pub access_key_id : Bytes
  pub secret_key : Bytes
  pub policies : List Bytes
  pub is_root : Bool
  pub disabled : Bool
  pub created_at : Time

pub record ServiceAccount : Type 0 where
  pub id : Bytes
  pub access_key_id : Bytes
  pub secret_key : Bytes
  pub parent_user : Bytes
  pub description : Bytes
  pub disabled : Bool
  pub expires_at : Option Time
  pub created_at : Time

pub record Session : Type 0 where
  pub id : Bytes
  pub username : Bytes
  pub is_root : Bool
  pub created_at : Time
  pub expires_at : Time
  pub ip_address : Bytes
  pub user_agent : Bytes

-- A value of the type interface{}: `null` is nil, `scalar` a number or a boolean.
mutual
  pub data Value : Type 0 where
    null scalar : Value
    str : Bytes → Value
    arr : Items → Value
    obj : Fields → Value

  pub data Items : Type 0 where
    nil : Items
    cons : Value → Items → Items

  pub data Fields : Type 0 where
    end : Fields
    field : Bytes → Value → Fields → Fields

pub record Statement : Type 0 where
  pub sid : Bytes
  pub effect : Bytes
  pub principal : Value
  pub action : Value
  pub resource : Value
  pub condition : List (Bytes × List (Bytes × Bytes))

pub record Policy : Type 0 where
  pub version : Bytes
  pub statement : List Statement
