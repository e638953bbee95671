-- ===== src/StaticFiles/Served.antt =====
-- Names of files never lead up, and every page has the index behind it.
use mini_control_public.Prelude.{
  Bool, ◌≢◌, ◌≡◌, ◌⊎◌, true, false, ◌&&◌, not, List, [], ◌∷◌, none, some, All,
}
use mini_control_public.Text.{Text, codes, text_eq}
use mini_control_public.Http.{is_empty}
use mini_control_public.StaticFiles.{
  is_dot, join_elements, static_name, Root, StaticRequest, StaticReply, not_found, redirects,
  file_server, writes_content, index,
}

-- An element that is a name: neither empty nor one of `.` and `..`.
abbrev pub IsName : Text → Type 0
IsName s = (is_dot s ≡ false) × (text_eq s (codes "..") ≡ false)

-- A name that is made of names, joined by slashes.
abbrev pub IsBelow : Text → Type 0
IsBelow name = (stack : List Text) × All IsName stack × (join_elements stack [] ≡ b'/' ∷ name)

-- What a request for a page is answered with: the file that the path names, if there is one, whose
-- elements are neither empty nor dots; or the index, as HTML; or nothing, if there is no index.
abbrev pub Page : Root → StaticRequest → StaticReply → Type 0
Page root r not_found =
    (root.read_file index ≡ none)
    × ((static_name r.path ≡ []) ⊎ (root.stat (static_name r.path) ≡ false))
Page root r (redirects host path query) = ⊥
Page root r (file_server name) =
    (name ≡ static_name r.path) × (root.stat name ≡ true) × IsBelow name
Page root r (writes_content content html) =
    (root.read_file index ≡ some content)
    × (html ≡ true)
    × ((static_name r.path ≡ []) ⊎ (root.stat (static_name r.path) ≡ false))

abbrev pub Reads : Text → Type 0
Reads method = (method ≡ codes "GET") ⊎ (method ≡ codes "HEAD")

-- The reply by the method and the host of a request, where the browser's host may be empty.
abbrev pub Served : Root → Text → StaticRequest → StaticReply → Type 0
Served root browser_host r reply =
    (¬ Reads r.method → reply ≡ not_found)
    × (Reads r.method
        → browser_host ≢ []
        → r.host ≢ browser_host
        → reply ≡ redirects browser_host r.path r.query)
    × (Reads r.method → (browser_host ≡ []) ⊎ (r.host ≡ browser_host) → Page root r reply)

-- Whether a request goes to another host.
abbrev elsewhere : Text → Text → Bool
elsewhere browser_host h = not (is_empty browser_host) && not (text_eq h browser_host)
