-- ===== src/Tests/Objects.antt =====
-- Garbage collection on the small catalog: the objects of version 2 and of no version.
use virtual_lab.Prelude.{some, List, [], ◌∷◌, ◌≡◌, refl, find, arith}
use virtual_lab.JsText.{text_eq}
use virtual_lab.Storage.Collect.{Object, is_named, collect, put}
use virtual_lab.Storage.Collected.{IsDirectory, put_not_collected}
use virtual_lab.Safety.Steps.{here}
use virtual_lab.Safety.Stored.{served_not_collected}
use virtual_lab.Tests.Data.{db-IsSafe, a, b, db, scenario_a, found_a}

abbrev served : Object
served = record { name = a; sha256 = b'2' ∷ []; bytes = 10; mtime_ms = 0 }

abbrev stray : Object
stray = record { name = b; sha256 = b'8' ∷ []; bytes = 10; mtime_ms = 0 }

abbrev objects : List Object
objects = served ∷ stray ∷ []

objects-IsDirectory : IsDirectory objects
unfolding find text_eq
objects-IsDirectory = (refl, (refl, tt))

served_there : find (is_named a) objects ≡ some served
unfolding find text_eq
served_there = refl

served_not_collected_example : find (is_named a) (collect 50 db objects).1 ≡ some served
served_not_collected_example =
    served_not_collected db db 50 objects a a scenario_a served db-IsSafe here objects-IsDirectory
      served_there found_a refl refl

abbrev fresh : Object
fresh = record { name = b; sha256 = b'8' ∷ []; bytes = 10; mtime_ms = 80 }

put_not_collected_example :
    (o : Object) × (find (is_named b) (collect 50 db (put fresh 90 objects).1).1 ≡ some o)
put_not_collected_example =
    put_not_collected 50 db fresh 90 objects objects-IsDirectory (omega arith) (omega arith)
