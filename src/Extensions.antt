-- ===== src/Extensions.antt =====
-- src/a2a_hub/extensions.py: `activated` and `echoing`, on the value of the request header, "" where
-- there is none. A set of supported URIs is a list.
pub mod Negotiated
use a2a_hub.Prelude.{Bool, not, ◌&&◌, List, [], ◌∷◌, ◌++◌, if◌then◌else◌}
use a2a_hub.Prelude.Text.{Str, codes, mem, strip, split, join}
use a2a_hub.Auth.Refusal.{Response}

-- the loop of `activated`, with its list `active`, over the parts between the commas
unfoldable pub activate_from : List Str → List Str → List Str → List Str
activate_from known active [] = active
activate_from known active (part ∷ parts) =
    activate_from known
      (if mem (strip part) known && not (mem (strip part) active)
        then active ++ strip part ∷ []
        else active)
      parts

unfoldable pub activated : List Str → Str → List Str
activated supported raw = activate_from supported [] (split b',' raw)

-- from the list of active URIs on
abbrev pub with_header : List Str → Response → Response
with_header [] response = response
with_header (uri ∷ uris) response = record response {
  headers = response.headers ++ (codes "A2A-Extensions", join (codes ", ") (uri ∷ uris)) ∷ [];
}

-- `wrapped` of `echoing`, on the handler's response
unfoldable pub echoing : List Str → Str → Response → Response
echoing supported raw response = with_header (activated supported raw) response
