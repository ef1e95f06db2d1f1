-- ===== src/Db/Consumptions/Once.antt =====
-- Claims of app/db/repositories/payments.py, before and after another claim.
use professional_bot.Prelude.{◌≡◌, refl, List, [], ◌∷◌, ◌++◌, Option, none, some, arith, beq_refl}
use professional_bot.Prelude.Text.{Text, text_eq}
use professional_bot.Db.Consumptions.{Consumption, get_by_fingerprint, insert_unless, claim}

get_by_fingerprint-kept :
    (f : Text) (cs : List Consumption) (d : Consumption) {c : Consumption}
    → get_by_fingerprint f cs ≡ some c
    → get_by_fingerprint f (cs ++ d ∷ []) ≡ some c
unfolding get_by_fingerprint
get_by_fingerprint-kept f [] d h = cc
get_by_fingerprint-kept f (x ∷ cs) d {c} h = ground (arith, get_by_fingerprint-kept f cs d {c = c})

get_by_fingerprint-appended :
    (cs : List Consumption) (d : Consumption)
    → get_by_fingerprint d.fingerprint cs ≡ none
    → get_by_fingerprint d.fingerprint (cs ++ d ∷ []) ≡ some d
unfolding get_by_fingerprint
get_by_fingerprint-appended [] d h = rw (beq_refl d.fingerprint) refl
get_by_fingerprint-appended (x ∷ cs) d h = ground (arith, get_by_fingerprint-appended cs d)

insert_unless-kept :
    (o : Option Consumption) (d : Consumption) (cs : List Consumption) (f : Text) {c : Consumption}
    → get_by_fingerprint f cs ≡ some c
    → get_by_fingerprint f (insert_unless o d cs).1 ≡ some c
unfolding insert_unless
insert_unless-kept none d cs f h = get_by_fingerprint-kept f cs d h
insert_unless-kept (some e) d cs f h = h

-- What a fingerprint was claimed for stays, whatever is claimed next.
pub claim-kept :
    (d : Consumption) (cs : List Consumption) (f : Text) {c : Consumption}
    → get_by_fingerprint f cs ≡ some c
    → get_by_fingerprint f (claim d cs).1 ≡ some c
unfolding claim
claim-kept d cs f h = insert_unless-kept (get_by_fingerprint d.fingerprint cs) d cs f h

insert_unless-holder :
    (o : Option Consumption) (d : Consumption) (cs : List Consumption)
    → get_by_fingerprint d.fingerprint cs ≡ o
    → get_by_fingerprint d.fingerprint (insert_unless o d cs).1 ≡ (insert_unless o d cs).0.0
unfolding insert_unless
insert_unless-holder none d cs h = get_by_fingerprint-appended cs d h
insert_unless-holder (some e) d cs h = h

-- The row that `claim` returns is the one that stands under the fingerprint after it.
pub claim-holder :
    (d : Consumption) (cs : List Consumption)
    → get_by_fingerprint d.fingerprint (claim d cs).1 ≡ (claim d cs).0.0
unfolding claim
claim-holder d cs = insert_unless-holder (get_by_fingerprint d.fingerprint cs) d cs refl
