-- ===== src/Line/Tests.antt =====
-- `get_line` at small inputs.
use c_language_learnning.Base.{[], ◌∷◌, map, codes}
use c_language_learnning.Socket.{Sock, got, nothing}
use c_language_learnning.Line.{get_line}
use c_language_learnning.Line.Bounds.{IsLine}
use c_language_learnning.Line.Normal.{Cut, get_line-Cut}

-- "a", a lone '\r', "b", and no more bytes for now.
abbrev slow_line : Sock
slow_line = got b'a' ∷ got b'\r' ∷ got b'b' ∷ nothing ∷ got b'c' ∷ []

get_line-Cut_example :
    Cut 3 (codes "a\nbcd\r\n") (get_line 4 (map got (codes "a\nbcd\r\n")))
    × IsLine (get_line 4 (map got (codes "a\nbcd\r\n"))).0
get_line-Cut_example = get_line-Cut 4 (codes "a\nbcd\r\n")
