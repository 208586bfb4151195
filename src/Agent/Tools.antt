-- ===== src/Agent/Tools.antt =====
-- agent/tools/base.py: what a tool declares about itself. The input schema is the part of a JSON
-- schema that the registry reads.
pub mod Policy
pub mod Execution
pub mod Authorized
mod Tests
use jake_ai.Prelude.{Bool, Dict, List, Option, String, ℕ, ℤ}

pub data ToolRiskLevel : Type 0 where
  read_only safe_write dangerous : ToolRiskLevel

-- an entry of the `properties` of a schema
pub record PropertySpec : Type 0 where
  pub type_name : Option String
  pub min_length : Option ℕ
  pub minimum : Option ℤ
  pub maximum : Option ℤ

pub record InputSchema : Type 0 where
  pub required : List String
  pub properties : Dict PropertySpec
  pub additional_properties : Bool

pub record ToolMetadata : Type 0 where
  pub name : String
  pub description : String
  pub input_schema : InputSchema
  pub permissions : List String
  pub risk_level : ToolRiskLevel
  pub timeout_ms : ℕ

-- the output stands for one of any type, and the error for whether there is one
pub record ToolResult : Type 0 where
  pub success : Bool
  pub output : Option String
  pub failed : Bool
  pub result_risk : ToolRiskLevel
