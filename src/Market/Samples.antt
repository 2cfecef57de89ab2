-- ===== src/Market/Samples.antt =====
-- Small tables for the runs of Market.
use kayan_place.Prelude.{true, [], ◌∷◌}
use kayan_place.Auth.Tables.{Account}
use kayan_place.Auth.Tests.{member, auth}
use kayan_place.Market.Tables.{MarketDb}

abbrev admin : Account
admin = record member { id = 2; email = "a"; is_admin = true }

abbrev other_admin : Account
other_admin = record member { id = 3; email = "b"; is_admin = true }

abbrev pub market : MarketDb
market = record {
  auth = record auth { accounts = member ∷ admin ∷ other_admin ∷ [] };
  sequences = record {
    next_file = 1;
    next_listing = 1;
    next_image = 1;
    next_rating = 1;
    next_conversation = 1;
    next_message = 1;
    next_warning = 1;
    next_audit = 1;
  };
  files = [];
  listings = [];
  images = [];
  ratings = [];
  conversations = [];
  messages = [];
  warnings = [];
  audit_logs = [];
}
