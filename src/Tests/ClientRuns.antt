-- ===== src/Tests/ClientRuns.antt =====
-- Runs of what is known of a client: the chain of its proxies and its transactions.
use waf.Base.{
  ℕ, ◌-◌, ◌≡◌, ◌⊎◌, refl, Bool, true, false, String, Option, none, some, List, [], ◌∷◌, ◌++◌,
  length, drop, any, min, arith, if◌then◌else◌, replicate,
}
use waf.Base.Keys.{nat_eq, string_eq, ◌==◌}
use waf.Base.Map
use waf.Base.Map.{Map}
use waf.Relay.{
  IpAddr, v4, v6, HeaderValue, Libraries, has_error, is_trusted, derive_real_ip, is_private_like,
  populate_derived,
}
use waf.Relay.Real.{AllTrusted, derive_real_ip_lem, populate_derived_lem}
use waf.TxVelocity.{EndpointRole, withdrawal, Event, events_of}
use waf.TxVelocity
use waf.TxVelocity.Window.{record_all, events_of-record_all}
use waf.TxVelocity.Classifiers.{
  VelocityCfg, evaluate_velocity, snapshot_of, withdrawal_velocity_classifier,
}
use waf.TxVelocity.Classifiers.Velocity.{evaluate_velocity-none}
use waf.TxVelocity.Recorder.{TxVelocityConfig, Classifier}
use waf.TxVelocity.Recorder.Cooldown.{Call}

abbrev address : String → Option IpAddr
address s =
    if s == "10.0.0.7"
    then some (v4 10 0 0 7)
    else if s == "8.8.8.8"
    then some (v4 8 8 8 8)
    else none

abbrev first_octet : ℕ → IpAddr → Bool
first_octet n (v4 a b c d) = a == n
first_octet n (v6 s ss) = false

-- A header map is the values of its one header, and a network is the first octet of its addresses.
abbrev headers_only : Libraries
headers_only = record {
  HeaderMap = List HeaderValue;
  HeaderName = String;
  get_all = λ n m. m;
  from_str = address;
  IpNet = ℕ;
  contains = first_octet;
}

client_untrusted : is_trusted headers_only (10 ∷ []) (v4 8 8 8 8) ≡ false
unfolding is_trusted
client_untrusted = refl

proxy_trusted : is_trusted headers_only (10 ∷ []) (v4 10 0 0 7) ≡ true
unfolding is_trusted
proxy_trusted = refl

-- A forged private address, the client and a trusted proxy.
derive_real_ip_lem_example :
    derive_real_ip headers_only
      ((v4 192 168 0 1 ∷ []) ++ v4 8 8 8 8 ∷ v4 10 0 0 7 ∷ [])
      (10 ∷ [])
      (v4 10 0 0 1)
    ≡ record {
      real_ip = v4 8 8 8 8;
      stripped_count = min 1 255;
      spoof_private_mid_chain = any is_private_like ((v4 192 168 0 1 ∷ []) ++ v4 8 8 8 8 ∷ []);
    }
derive_real_ip_lem_example =
    derive_real_ip_lem headers_only (10 ∷ []) (v4 192 168 0 1 ∷ []) (v4 8 8 8 8) (v4 10 0 0 7 ∷ [])
      (v4 10 0 0 1) client_untrusted (proxy_trusted, tt)

abbrev forwarded : List HeaderValue
forwarded = record { len = 17; to_str = some "8.8.8.8, 10.0.0.7" } ∷ []

populate_derived_lem_example :
    let d =
      populate_derived headers_only forwarded (v4 10 0 0 1) ("x-forwarded-for" ∷ []) (10 ∷ []) in
    ((d.real_ip ≡ v4 10 0 0 1)
      × ((has_error d.parsed ≡ true) ⊎ AllTrusted headers_only (10 ∷ []) d.parsed.entries))
    ⊎ ((before : List IpAddr) × (after : List IpAddr) × (has_error d.parsed ≡ false)
        × (d.parsed.entries ≡ before ++ d.real_ip ∷ after)
        × (is_trusted headers_only (10 ∷ []) d.real_ip ≡ false)
        × AllTrusted headers_only (10 ∷ []) after)
populate_derived_lem_example =
    populate_derived_lem headers_only (10 ∷ []) forwarded (v4 10 0 0 1) ("x-forwarded-for" ∷ [])

abbrev at_ms : ℕ → Event
at_ms t = record { role = withdrawal; ts_ms = t; ok = true }

-- Twenty withdrawals at one instant.
abbrev many : List Event
many = replicate 20 (at_ms 5000)

events_of-record_all_example :
    events_of (record_all many TxVelocity.new) ≡ drop (length many - 16) many
events_of-record_all_example = events_of-record_all many

abbrev at_16 : VelocityCfg
at_16 = record { max_count = 16; window_ms = 60000 }

evaluate_velocity-none_example :
    evaluate_velocity (snapshot_of (record_all many TxVelocity.new)) 5000 at_16 withdrawal ≡ none
evaluate_velocity-none_example = evaluate_velocity-none many 5000 at_16 withdrawal (omega arith)

-- Any withdrawal gives a signal, once in ten seconds.
abbrev config : TxVelocityConfig
config = record {
  enabled = true;
  signal_cooldown_ms = 10000;
  session_ttl_secs = 3600;
  classifiers = record {
    sequence = none;
    withdrawal_velocity = some (record { max_count = 0; window_ms = 1000 });
    limit_change_velocity = none;
  };
}

abbrev withdraw : ℕ → Call String
withdraw t = record { key = "a"; role = withdrawal; ok = true; now_ms = t }

abbrev one_classifier : List Classifier
one_classifier = withdrawal_velocity_classifier ∷ []
