-- ===== src/Buyer.antt =====
-- agents/scripted-brain/src/agent-tools.ts and packages/mcp-server/src/tools/request-purchase.ts:
-- what an agent buys with. What the facilitator and the store answer over HTTP are arguments.
pub mod AgentTools
pub mod Variants
pub mod Purchase
use hundi.Common.{ℕ, Bool, Option, List, Text}

-- `trim` and `toLowerCase` of a string, by the tables of Unicode.
pub record Casing : Type 0 where
  pub trim : Text → Text
  pub to_lower_case : Text → Text

pub record ProductVariant : Type 0 where
  pub variant_id : Text
  pub label : Text
  pub option_values : List Text
  pub price_paise : ℕ
  pub available : Bool

-- What the catalog lists; the columns that are only shown are left out.
pub record Product : Type 0 where
  pub id : Text
  pub title : Text
  pub price_paise : ℕ
  pub merchant_id : Text
  pub variants : Option (List ProductVariant)

pub record CartLineInput : Type 0 where
  pub product : Product
  pub qty : ℕ
  pub variant_id : Option Text
