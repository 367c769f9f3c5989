-- ===== src/Auth/Identity.antt =====
-- auth/identity.py: the caller, as the gate reads it.
use gads_write_mcp.Base.{String}

-- The address, normalised; the other fields of the class are not read by what is modelled.
pub record Caller : Type 0 where
  pub email : String
