-- ===== src/Location/Examples.antt =====
-- session_location.rs: two addresses and a third that finds both places taken.
use hmux.Base.{◌≡◌, ◌≢◌, refl, true, false, none, some, [], ◌∷◌}
use hmux.Base.Map.{lookup, insert}
use hmux.Location.Address.{IpAddr, v4, public_ip, is_public, to_canonical}
use hmux.Location.Lookup.{State, empty, begin_lookup, own, answer}
use hmux.Location.Bounds.{begin, end, run, step, IsBounded, calls-IsBounded}
use hmux.Location.Ranges.{outside, public_ip-eq}
use hmux.Location.Owner.{begin_lookup-run}

abbrev google : IpAddr
google = v4 0x08080808

abbrev quad : IpAddr
quad = v4 0x09090909

abbrev looking : State
looking = record { cache = []; pending = (google, tt) ∷ [] }

begin_google : begin_lookup empty google 0 ≡ (looking, own)
unfolding begin_lookup lookup insert
begin_google = refl

third_refused :
    (begin_lookup (run empty (begin google 0 ∷ begin quad 0 ∷ [])) (v4 0x04040404) 0).1 ≡ answer []
unfolding begin_lookup lookup insert run step
third_refused = refl

private_v4 : public_ip (v4 0xc0a80101) ≡ false
unfolding public_ip to_canonical is_public
private_v4 = refl

google_public : public_ip google ≡ true
unfolding public_ip to_canonical is_public
google_public = refl

calls-IsBounded_example :
    IsBounded (run empty (begin google 0 ∷ end google (some (b'a' ∷ [])) 5 ∷ begin quad 6 ∷ []))
calls-IsBounded_example =
    calls-IsBounded (begin google 0 ∷ end google (some (b'a' ∷ [])) 5 ∷ begin quad 6 ∷ [])

begin_lookup-run_example :
    (begin_lookup (run looking (begin google 1 ∷ end quad none 2 ∷ [])) google 3).1 ≢ own
begin_lookup-run_example =
    begin_lookup-run empty looking google 0 3 (begin google 1 ∷ end quad none 2 ∷ []) begin_google
      (refl, (refl, tt))

public_ip-eq_example : public_ip (v4 0xac1f0001) ≡ outside (to_canonical (v4 0xac1f0001))
public_ip-eq_example = public_ip-eq (v4 0xac1f0001)
