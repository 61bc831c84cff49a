-- ===== src/Tests/Data.antt =====
-- The tables on which the examples run.
use rentcar_backend.Base.{ℕ, [], ◌∷◌, none, some, arith, ◌*◌, ◌+◌}
use rentcar_backend.Models.{RentalStatus, User, Car, RentalRow, customer, available, requested}
use rentcar_backend.Store.{Database, World}
use rentcar_backend.Coherence.{IsCoherent}

abbrev pub day_ns : ℕ
day_ns = 86_400_000_000_000

-- Noon of 2024-05-01
abbrev pub may_first : ℕ
may_first = 739_372

abbrev pub ann : User
ann = record {
  id = 1;
  name = "Ann";
  email = "ann@example.com";
  phone = "";
  password_hash = "";
  role = customer;
  email_verified_at = some 0;
  email_verification_code_hash = "";
  email_verification_expires_at = none;
  email_verification_sent_at = none;
  email_verification_attempts = 0;
  created_at = 0;
  updated_at = 0;
}

abbrev pub cobalt : Car
cobalt = record {
  id = 1;
  brand = "Chevrolet";
  model = "Cobalt";
  year = 2020;
  plate_number = "01A123BC";
  daily_rate = 4_000;
  seats = 5;
  fuel = "petrol";
  transmission = "manual";
  status = available;
  image = "";
  created_at = 0;
  updated_at = 0;
}

abbrev pub no_rentals : Database
no_rentals = record {
  users = ann ∷ [];
  cars = cobalt ∷ [];
  rentals = [];
  payments = [];
  invoices = [];
  maintenances = [];
  tokens = [];
  notifications = [];
  audit_logs = [];
  next_user = 2;
  next_car = 2;
  next_rental = 1;
  next_payment = 1;
  next_invoice = 1;
  next_maintenance = 1;
  next_token = 1;
  next_notification = 1;
  next_audit_log = 1;
}

abbrev pub request_at : ℕ → Database → World
request_at day db = record {
  db = db;
  others = [];
  faults = [];
  now = day * day_ns + 43_200_000_000_000;
}

-- Four days from the tenth of May.
abbrev pub wanted : RentalRow
wanted = record {
  id = 0;
  user_id = 1;
  car_id = 1;
  start_date = may_first + 9;
  end_date = may_first + 12;
  total_amount = 16_000;
  status = requested;
  created_at = 0;
  updated_at = 0;
}

pub no_rentals-IsCoherent : IsCoherent no_rentals
no_rentals-IsCoherent = record {
  fit = λ id r e. ground arith;
  rental_ids = tt;
  payment_ids = tt;
  owners = tt;
  payments_below = tt;
  owners_below = tt;
  rentals_below = tt;
}

-- The tables once the wanted rental has come so far.
abbrev pub one_rental : RentalStatus → Database
one_rental s = record no_rentals {
  rentals = record wanted { id = 1; status = s } ∷ [];
  next_rental = 2;
}
