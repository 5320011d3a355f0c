-- ===== src/Client/Errors.antt =====
-- clientlibs/js/src/errors.ts, the values that a call of clientlibs/js/src/client.ts can throw, and
-- the translation of gRPC errors there, `_handleError`.
pub mod Table
use Prim.Native.String.{◌++◌}
use vectron.Prelude.{ℕ, ℤ, String, ◌≡◌, ◌==◌, if◌then◌else◌, Outcome, err}

-- The base class and its five subclasses.
pub data ErrorClass : Type 0 where
  vectron_error : ErrorClass
  authentication_error : ErrorClass
  not_found_error : ErrorClass
  invalid_argument_error : ErrorClass
  already_exists_error : ErrorClass
  internal_server_error : ErrorClass

-- An error object: its class, and the fields `name` and `message`.
pub record VectronError : Type 0 where
  pub class_of : ErrorClass
  pub name : String
  pub message : String

unfoldable pub new_vectron_error : String → VectronError
new_vectron_error message = record {
  class_of = vectron_error;
  name = "VectronError";
  message = message;
}

-- A subclass runs the base constructor first, and then writes its own name.
subclass_error : ErrorClass → String → String → VectronError
unfolding new_vectron_error
subclass_error c name message = record (new_vectron_error message) { class_of = c; name = name }

unfoldable pub new_authentication_error : String → VectronError
unfolding subclass_error
new_authentication_error message = subclass_error authentication_error "AuthenticationError" message

unfoldable pub new_not_found_error : String → VectronError
unfolding subclass_error
new_not_found_error message = subclass_error not_found_error "NotFoundError" message

unfoldable pub new_invalid_argument_error : String → VectronError
unfolding subclass_error
new_invalid_argument_error message =
    subclass_error invalid_argument_error "InvalidArgumentError" message

unfoldable pub new_already_exists_error : String → VectronError
unfolding subclass_error
new_already_exists_error message = subclass_error already_exists_error "AlreadyExistsError" message

unfoldable pub new_internal_server_error : String → VectronError
unfolding subclass_error
new_internal_server_error message =
    subclass_error internal_server_error "InternalServerError" message

-- A gRPC error: the fields that the client reads.
pub record ServiceError : Type 0 where
  pub code : ℕ
  pub details : String

-- What a promise of the client can reject with: one of its own errors, a gRPC error, or any other
-- value, which has no `code`.
pub data Thrown : Type 0 where
  own : VectronError → Thrown
  service : ServiceError → Thrown
  other : String → Thrown

-- The statuses that the client names.
pub data StatusName : Type 0 where
  unauthenticated not_found invalid_argument already_exists internal : StatusName
  unavailable deadline_exceeded resource_exhausted : StatusName

-- What the client takes from the packages it runs on: the numbers of `grpc.status`, different ones
-- for different statuses, and the text of a number in a template string.
pub record Platform : Type 0 where
  pub number : StatusName → ℕ
  pub number_inj : (a b : StatusName) → number a ≡ number b → a ≡ b
  pub show : ℤ → String

module _ (pf : Platform) where
  unfoldable pub handle_error : ServiceError → VectronError
  handle_error e =
      if e.code == pf.number unauthenticated
      then new_authentication_error e.details
      else if e.code == pf.number not_found
      then new_not_found_error e.details
      else if e.code == pf.number invalid_argument
      then new_invalid_argument_error e.details
      else if e.code == pf.number already_exists
      then new_already_exists_error e.details
      else if e.code == pf.number internal
      then new_internal_server_error e.details
      else new_vectron_error ("An unexpected gRPC error occurred: " ++ e.details)

-- `throw new InvalidArgumentError(message)`
abbrev pub invalid_argument_thrown {ℓ} : {A : Type ℓ} → String → Outcome Thrown A
invalid_argument_thrown message = err (own (new_invalid_argument_error message))
