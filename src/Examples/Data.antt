-- ===== src/Examples/Data.antt =====
-- The data of the tests: a platform, clients, points and worlds.
use vectron.Prelude.{
  ℕ, String, ◌≡◌, ◌≢◌, refl, inl, true, false, none, some, List, [], ◌∷◌, arith, eq_iff, length,
  pos, Outcome, ok, err, All,
}
use vectron.Client.Errors.{
  StatusName, unauthenticated, not_found, invalid_argument, already_exists, internal, unavailable,
  deadline_exceeded, resource_exhausted, Platform, ServiceError,
}
use vectron.Client.Options.{Options, default_options}
use vectron.Client.Hedge.{first_then_timer}
use vectron.Client.World.{World, Request, ResponseOf}
use vectron.Client.Session.{Client, insecure}
use vectron.Client.Calls.{Point}
use vectron.Client.Calls.Validation.{IsValid}
use vectron.Client.Batch.Sending.{Accepts}

-- The numbers of the gRPC statuses.
abbrev pub status_number : StatusName → ℕ
status_number unauthenticated = 16
status_number not_found = 5
status_number invalid_argument = 3
status_number already_exists = 6
status_number internal = 13
status_number unavailable = 14
status_number deadline_exceeded = 4
status_number resource_exhausted = 8

pub status_number_inj : (a b : StatusName) → status_number a ≡ status_number b → a ≡ b
status_number_inj a b h = ground arith

abbrev pub platform : Platform
platform = record { number = status_number; number_inj = status_number_inj; show = λ z. "4" }

abbrev pub client_with : Options → Client
client_with o = record {
  channel = record {
    host = "localhost:8081";
    credentials = insecure;
    channel_options = [];
    is_closed = false;
  };
  api_key = some "key";
  options = o;
}

abbrev pub client : Client
client = client_with default_options

abbrev pub hedging_client : Client
hedging_client = client_with (record default_options { hedged_reads = some true })

abbrev pub unavailable_error : ServiceError
unavailable_error = record { code = 14; details = "down" }

-- A server that accepts points and fails at everything else.
abbrev pub accepting : ℕ → (r : Request ℕ) → Outcome ServiceError (ResponseOf r)
accepting k (Request.upsert r) = ok (record { upserted = pos (length r.points) })
accepting k (Request.create_collection r) = err unavailable_error
accepting k (Request.list_collections r) = err unavailable_error
accepting k (Request.get_collection_status r) = err unavailable_error
accepting k (Request.search r) = err unavailable_error
accepting k (Request.get r) = err unavailable_error
accepting k (Request.delete r) = err unavailable_error

abbrev pub world : World ℕ
world = record {
  replies = accepting;
  draws = λ k. 500;
  clock = λ k. pos 1000;
  orders = λ k. first_then_timer;
  sent = [];
  slept = [];
  drawn = 0;
}

pub world-Accepts : Accepts world
world-Accepts = record { counts = λ k r. refl }

abbrev pub point_a : Point ℕ
point_a = record { id = "a"; vector = 1 ∷ 2 ∷ []; payload = none }

abbrev pub point_b : Point ℕ
point_b = record { id = "b"; vector = 3 ∷ 4 ∷ []; payload = some (("lang", "en") ∷ []) }

abbrev pub two_points : List (Point ℕ)
two_points = point_a ∷ point_b ∷ []

pub point_a-IsValid : IsValid client point_a
point_a-IsValid = record {
  named = ground (arith, eq_iff "a" "");
  filled = λ e. cc;
  fits = inl refl;
}

pub point_b-IsValid : IsValid client point_b
point_b-IsValid = record {
  named = ground (arith, eq_iff "b" "");
  filled = λ e. cc;
  fits = inl refl;
}

-- A name that is not empty.
pub docs_named : ◌≢◌ {A = String} "docs" ""
docs_named = ground (arith, eq_iff "docs" "")

pub two_points-IsValid : All (IsValid client) two_points
two_points-IsValid = (point_a-IsValid, (point_b-IsValid, tt))
