-- ===== src/Server/Status/Tests.antt =====
-- The reports of internal/server/server.go at concrete values.
use filesearch.Base.{◌≡◌, refl, true, false, some, Text, codes}
use filesearch.Base.Int.{pos}
use filesearch.Base.Result.{ok}
use filesearch.Server.Status.{handle_status, set_indexing, log_tail}

abbrev log : Text
log = codes "one\ntwo\nthree"

last_two : log_tail log 2 ≡ codes "two\nthree"
unfolding log_tail
last_two = refl

-- More vectors than files: those of deleted files stay.
beyond_hundred :
    handle_status (some (record { file_count = ok 2; vector_count = ok 3 }))
    ≡ record { embedded = 3; total = 2; percent = 150 }
unfolding handle_status
beyond_hundred = refl

two_jobs : set_indexing false (set_indexing true (set_indexing true (pos 0))) ≡ pos 1
unfolding set_indexing
two_jobs = refl
