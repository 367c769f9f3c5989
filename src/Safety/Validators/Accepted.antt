-- ===== src/Safety/Validators/Accepted.antt =====
-- When a result is ok: where each of the checks that it appends is.
pub mod Reports
pub mod Texts
pub mod SearchAds
use gads_write_mcp.Base.{◌≡◌, refl, ◌↔◌, Bool, true, false, List, [], ◌∷◌, ◌++◌, if◌then◌else◌}
use gads_write_mcp.Safety.Validators.{Field, Message, Problem, problem, unless}

pub append-ok : (ps qs : List Problem) → ps ++ qs ≡ [] → (ps ≡ []) × (qs ≡ [])
append-ok [] qs h = (refl, h)
append-ok (p ∷ ps) qs h = cc

pub ok-append : (ps qs : List Problem) → ps ≡ [] → qs ≡ [] → ps ++ qs ≡ []
ok-append [] qs h k = k
ok-append (p ∷ ps) qs h k = cc

pub unless-ok : (b : Bool) (f : Field) (m : Message) → unless b f m ≡ [] → b ≡ true
unless-ok true f m h = refl
unless-ok false f m h = cc

pub ok-unless : (b : Bool) (f : Field) (m : Message) → b ≡ true → unless b f m ≡ []
ok-unless true f m h = refl
ok-unless false f m h = cc

-- A check that ends the validation with one problem.
pub stop-ok :
    (b : Bool) (f : Field) (m : Message) (rest : List Problem)
    → (if b then problem f m else rest) ≡ []
    → (b ≡ false) × (rest ≡ [])
stop-ok true f m rest h = cc
stop-ok false f m rest h = (refl, h)

pub ok-stop :
    (b : Bool) (f : Field) (m : Message) (rest : List Problem)
    → b ≡ false
    → rest ≡ []
    → (if b then problem f m else rest) ≡ []
ok-stop true f m rest h k = cc
ok-stop false f m rest h k = k
