-- ===== src/Conf/StringList/Tests.antt =====
-- Runs of the reader of word lists on concrete texts.
use libhif.Base.{Bytes, codes, List, [], ◌∷◌, ◌≡◌, refl, some, find_from}
use libhif.Conf.StringList.{after_newline, after_comma, round, loop, from_string, to_string}
use libhif.Conf.StringList.Loop.{from_string_total}
use libhif.Conf.StringList.RoundTrip.{from_string-to_string}

mixed :
    from_string (codes " a  b, c ,d\n e,\nf")
    ≡ some (codes "a" ∷ codes "b" ∷ codes "c" ∷ codes "d" ∷ codes "e" ∷ codes "f" ∷ [])
unfolding from_string loop round after_comma after_newline find_from
mixed = refl

from_string_total_example : (words : List Bytes) × (from_string (codes "a, b") ≡ some words)
from_string_total_example = from_string_total (codes "a, b")

abbrev words : List Bytes
words = codes "ab" ∷ codes "c" ∷ []

from_string-to_string_example : from_string (to_string words) ≡ some words
from_string-to_string_example =
    from_string-to_string words (((λ e. cc), (refl, (refl, tt))), (((λ e. cc), (refl, tt)), tt))
