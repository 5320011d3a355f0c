-- ===== src/Client/Errors/Table.antt =====
-- The errors that `_handleError` of clientlibs/js/src/client.ts makes of the gRPC statuses.
use Prim.Native.String.{◌++◌}
use vectron.Prelude.{String, Option, none, some, ◌↔◌, ◌≡◌, ◌≢◌, arith}
use vectron.Client.Errors.{
  ErrorClass, vectron_error, authentication_error, not_found_error, invalid_argument_error,
  already_exists_error, internal_server_error, VectronError, StatusName, unauthenticated, not_found,
  invalid_argument, already_exists, internal, unavailable, deadline_exceeded, resource_exhausted,
  Platform, ServiceError, handle_error, new_vectron_error, new_authentication_error,
  new_not_found_error, new_invalid_argument_error, new_already_exists_error,
  new_internal_server_error,
}

-- The error of a status, with the details of the gRPC error.
abbrev pub error_for : StatusName → String → VectronError
error_for unauthenticated d = new_authentication_error d
error_for not_found d = new_not_found_error d
error_for invalid_argument d = new_invalid_argument_error d
error_for already_exists d = new_already_exists_error d
error_for internal d = new_internal_server_error d
error_for unavailable d = new_vectron_error ("An unexpected gRPC error occurred: " ++ d)
error_for deadline_exceeded d = new_vectron_error ("An unexpected gRPC error occurred: " ++ d)
error_for resource_exhausted d = new_vectron_error ("An unexpected gRPC error occurred: " ++ d)

module _ (pf : Platform) where
  apart : (a b : StatusName) → a ≢ b → pf.number a ≢ pf.number b
  apart a b h e = h (pf.number_inj a b e)

  -- A gRPC error with the code of a named status becomes the error class of that status, with the
  -- details as its message; a status without a class of its own becomes the base class, with a
  -- longer message.
  pub handle_error_table :
      (e : ServiceError) (s : StatusName)
      → e.code ≡ pf.number s
      → handle_error pf e ≡ error_for s e.details
  unfolding handle_error
  handle_error_table e unauthenticated h = ground arith
  handle_error_table e not_found h = ground (arith, apart not_found unauthenticated (λ p. cc))
  handle_error_table e invalid_argument h = ground (
    arith,
    apart invalid_argument unauthenticated (λ p. cc),
    apart invalid_argument not_found (λ p. cc),
  )
  handle_error_table e already_exists h = ground (
    arith,
    apart already_exists unauthenticated (λ p. cc),
    apart already_exists not_found (λ p. cc),
    apart already_exists invalid_argument (λ p. cc),
  )
  handle_error_table e internal h = ground (
    arith,
    apart internal unauthenticated (λ p. cc),
    apart internal not_found (λ p. cc),
    apart internal invalid_argument (λ p. cc),
    apart internal already_exists (λ p. cc),
  )
  handle_error_table e unavailable h = ground (
    arith,
    apart unavailable unauthenticated (λ p. cc),
    apart unavailable not_found (λ p. cc),
    apart unavailable invalid_argument (λ p. cc),
    apart unavailable already_exists (λ p. cc),
    apart unavailable internal (λ p. cc),
  )
  handle_error_table e deadline_exceeded h = ground (
    arith,
    apart deadline_exceeded unauthenticated (λ p. cc),
    apart deadline_exceeded not_found (λ p. cc),
    apart deadline_exceeded invalid_argument (λ p. cc),
    apart deadline_exceeded already_exists (λ p. cc),
    apart deadline_exceeded internal (λ p. cc),
  )
  handle_error_table e resource_exhausted h = ground (
    arith,
    apart resource_exhausted unauthenticated (λ p. cc),
    apart resource_exhausted not_found (λ p. cc),
    apart resource_exhausted invalid_argument (λ p. cc),
    apart resource_exhausted already_exists (λ p. cc),
    apart resource_exhausted internal (λ p. cc),
  )

-- The class that a status has to itself.
abbrev pub class_for : StatusName → Option ErrorClass
class_for unauthenticated = some authentication_error
class_for not_found = some not_found_error
class_for invalid_argument = some invalid_argument_error
class_for already_exists = some already_exists_error
class_for internal = some internal_server_error
class_for unavailable = none
class_for deadline_exceeded = none
class_for resource_exhausted = none

abbrev pub message_for : ErrorClass → String → String
message_for vectron_error d = "An unexpected gRPC error occurred: " ++ d
message_for _ d = d

class_of-error_for :
    (s : StatusName) (k : ErrorClass) (d : String)
    → class_for s ≡ some k
    → (error_for s d).class_of ≡ k
unfolding new_vectron_error new_authentication_error new_not_found_error new_invalid_argument_error
    new_already_exists_error new_internal_server_error
class_of-error_for unauthenticated k d has = ground (arith, has)
class_of-error_for not_found k d has = ground (arith, has)
class_of-error_for invalid_argument k d has = ground (arith, has)
class_of-error_for already_exists k d has = ground (arith, has)
class_of-error_for internal k d has = ground (arith, has)
class_of-error_for unavailable k d has = absurd (cc has)
class_of-error_for deadline_exceeded k d has = absurd (cc has)
class_of-error_for resource_exhausted k d has = absurd (cc has)

module _ (pf : Platform) (e : ServiceError) where
  class-of_status :
      (s : StatusName) (k : ErrorClass)
      → class_for s ≡ some k
      → e.code ≡ pf.number s
      → (handle_error pf e).class_of ≡ k
  class-of_status s k has code =
      rw (handle_error_table pf e s code) (class_of-error_for s k e.details has)

  status-of_class :
      (s : StatusName) (k : ErrorClass)
      → class_for s ≡ some k
      → (handle_error pf e).class_of ≡ k
      → e.code ≡ pf.number s
  unfolding handle_error new_vectron_error new_authentication_error new_not_found_error
      new_invalid_argument_error new_already_exists_error new_internal_server_error
  status-of_class unauthenticated k has same = ground (arith, has, same)
  status-of_class not_found k has same = ground (arith, has, same)
  status-of_class invalid_argument k has same = ground (arith, has, same)
  status-of_class already_exists k has same = ground (arith, has, same)
  status-of_class internal k has same = ground (arith, has, same)
  status-of_class unavailable k has same = absurd (cc has)
  status-of_class deadline_exceeded k has same = absurd (cc has)
  status-of_class resource_exhausted k has same = absurd (cc has)

  message-of_class :
      (handle_error pf e).message ≡ message_for (handle_error pf e).class_of e.details
  unfolding handle_error new_vectron_error new_authentication_error new_not_found_error
      new_invalid_argument_error new_already_exists_error new_internal_server_error
  message-of_class = ground arith

  -- For each of the five statuses that have an error class, and any gRPC error, whatever its
  -- code: it becomes an error of that class exactly if its code is the one of that status; and
  -- its message is its details, behind a text of the client if it has become the base class.
  pub handle_error_class :
      (s : StatusName) (k : ErrorClass)
      → class_for s ≡ some k
      → (((handle_error pf e).class_of ≡ k) ↔ (e.code ≡ pf.number s))
        × ((handle_error pf e).message ≡ message_for (handle_error pf e).class_of e.details)
  handle_error_class s k has =
      ((status-of_class s k has, class-of_status s k has), message-of_class)
