-- ===== src/Result.antt =====
-- lib/cretonne/src/result.rs, with the verifier's error: the errors of a compilation. An entity is its
-- number.
use Prim.Native.String.{String}
use cretonne.Prelude.{ℕ}

pub data AnyEntity : Type 0 where
  function : AnyEntity
  ebb inst value stack_slot global_var jump_table func_ref sig_ref heap : ℕ → AnyEntity

pub record VerifierError : Type 0 where
  pub location : AnyEntity
  pub message : String

pub data CtonError : Type 0 where
  invalid_input : CtonError
  verifier : VerifierError → CtonError
  impl_limit_exceeded code_too_large : CtonError

-- `Result<A, CtonError>`.
pub data Result (A : Type 0) : Type 0 where
  ok : A → Result A
  err : CtonError → Result A

-- `CtonError::description`.
unfoldable pub description : CtonError → String
description CtonError.invalid_input = "Invalid input code"
description (CtonError.verifier e) = e.message
description CtonError.impl_limit_exceeded = "Implementation limit exceeded"
description CtonError.code_too_large = "Code for function is too large"
