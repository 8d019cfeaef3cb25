-- ===== src/Server/Http/Delivered.antt =====
-- What the callbacks are called with, and what the result then says.
use report_api.Prelude.{
  ◌≡◌, ◌≢◌, refl, ap, ◌∙◌, inl, inr, Option, Option-cases, none, some, List, [], ◌∷◌, ◌++◌,
  append_assoc, append-nil, map,
}
use report_api.Go.Result.{ok, Error}
use report_api.Go.Returns.{Returns, failed, returned}
use report_api.Go.Text.{Str, Bytes}
use report_api.Server.Http.{
  ReadEnd, eof, broken, Reads, read_end, read_from, read_all_optimized, Request, Response, Callback,
  not_called, called, called_after_read, post_reply, PostParams, body_of, http_post, post_request,
}

-- The chunks, one after the other.
abbrev pub joined : List Bytes → Bytes
joined [] = []
joined (chunk ∷ chunks) = chunk ++ joined chunks

read_from-joined :
    (result : Bytes) (chunks : List Bytes) (last : Bytes) (ending : ReadEnd) (after : Reads)
    → read_from result (map (λ chunk. (chunk, none)) chunks ++ (last, some ending) ∷ after)
      ≡ some (read_end ending (result ++ joined chunks ++ last))
unfolding read_from
read_from-joined result [] last ending after = rw (append-nil result)
read_from-joined result (chunk ∷ chunks) last ending after =
    read_from-joined (result ++ chunk) chunks last ending after
    ∙ rw (append_assoc result chunk (joined chunks))

-- ReadAllOptimized reads up to the first read with an error: at the end of the body it returns all that
-- was read, the bytes of the last read included, and for another error this error.
pub read_all_optimized-joined :
    (chunks : List Bytes) (last : Bytes) (ending : ReadEnd) (after : Reads)
    → read_all_optimized (map (λ chunk. (chunk, none)) chunks ++ (last, some ending) ∷ after)
      ≡ some (read_end ending (joined chunks ++ last))
unfolding read_all_optimized
read_all_optimized-joined chunks last ending after = read_from-joined [] chunks last ending after

-- The content is all that the reads of a body give: those without an error, and the one with which the
-- body ends, whose bytes count too.
pub record IsWholeBody (reads : Reads) (content : Bytes) : Type 0 where
  pub chunks : List Bytes
  pub last : Bytes
  pub after : Reads
  pub reads_are : reads ≡ map (λ chunk. (chunk, none)) chunks ++ (last, some eof) ∷ after
  pub content_is : content ≡ joined chunks ++ last

-- The parts of a body that was read from some bytes on.
read_from-parts :
    (result : Bytes) (reads : Reads) (content : Bytes)
    → read_from result reads ≡ some (returned content)
    → (chunks : List Bytes) × (last : Bytes) × (after : Reads) × (reads
        ≡ map (λ chunk. (chunk, none)) chunks ++ (last, some eof) ∷ after)
      × (content ≡ result ++ (joined chunks ++ last))
unfolding read_from read_end
read_from-parts result [] content h = cc
read_from-parts result ((chunk, none) ∷ reads) content h =
    let (chunks, last, after, e, c) = read_from-parts (result ++ chunk) reads content h in
    (
      chunk ∷ chunks,
      last,
      after,
      ap (λ rest. (chunk, none) ∷ rest) e,
      c
          ∙ rw (
            append_assoc result chunk (joined chunks ++ last),
            append_assoc chunk (joined chunks) last,
          ),
    )
read_from-parts result ((chunk, some eof) ∷ reads) content h = ([], chunk, reads, refl, cc)
read_from-parts result ((chunk, some (broken e)) ∷ reads) content h = cc

pub read_all_optimized-IsWholeBody :
    (reads : Reads) (content : Bytes)
    → read_all_optimized reads ≡ some (returned content)
    → IsWholeBody reads content
unfolding read_all_optimized
read_all_optimized-IsWholeBody reads content h =
    let (chunks, last, after, e, c) = read_from-parts [] reads content h in
    record { chunks = chunks; last = last; after = after; reads_are = e; content_is = c }

-- A read fails with an error before the body ends.
pub record IsBrokenBody (reads : Reads) (e : Error) : Type 0 where
  pub chunks : List Bytes
  pub last : Bytes
  pub after : Reads
  pub reads_are : reads ≡ map (λ chunk. (chunk, none)) chunks ++ (last, some (broken e)) ∷ after

read_from-broken :
    (result : Bytes) (reads : Reads) (e : Error)
    → read_from result reads ≡ some (failed e)
    → IsBrokenBody reads e
unfolding read_from read_end
read_from-broken result [] e h = cc
read_from-broken result ((chunk, none) ∷ reads) e h =
    let rest = read_from-broken (result ++ chunk) reads e h in
    record {
      chunks = chunk ∷ rest.chunks;
      last = rest.last;
      after = rest.after;
      reads_are = ap (λ others. (chunk, none) ∷ others) rest.reads_are;
    }
read_from-broken result ((chunk, some eof) ∷ reads) e h = cc
read_from-broken result ((chunk, some (broken x)) ∷ reads) e h = record {
  chunks = [];
  last = chunk;
  after = reads;
  reads_are = same_end cc;
}
  where
    same_end :
        x ≡ e → Path Reads ((chunk, some (broken x)) ∷ reads) ((chunk, some (broken e)) ∷ reads)
    same_end h = cc

pub read_all_optimized-IsBrokenBody :
    (reads : Reads) (e : Error) → read_all_optimized reads ≡ some (failed e) → IsBrokenBody reads e
unfolding read_all_optimized
read_all_optimized-IsBrokenBody reads e h = read_from-broken [] reads e h

-- The callback got the whole body, once, and returned no error.
pub record IsDelivered (call : Callback) (reads : Reads) (calls : List Bytes) : Type 0 where
  pub content : Bytes
  pub read : IsWholeBody reads content
  pub once : calls ≡ content ∷ []
  pub accepted : call content ≡ none

called_after_read-IsDelivered :
    (call : Callback) (reads : Reads) (o : Option (Returns Bytes)) (calls : List Bytes)
    → read_all_optimized reads ≡ o
    → called_after_read (some call) o ≡ some (ok record { error = none; calls = calls })
    → IsDelivered call reads calls
unfolding called_after_read called
called_after_read-IsDelivered call reads none calls e h = cc
called_after_read-IsDelivered call reads (some (failed x)) calls e h = cc
called_after_read-IsDelivered call reads (some (returned content)) calls e h = record {
  content = content;
  read = read_all_optimized-IsWholeBody reads content e;
  once = cc;
  accepted = cc;
}

post_reply-IsDelivered :
    (call : Callback) (reply : Returns Response) (calls : List Bytes)
    → post_reply (some call) reply ≡ some (ok record { error = none; calls = calls })
    → (resp : Response) × (reply ≡ returned resp) × IsDelivered call resp.body calls
unfolding post_reply
post_reply-IsDelivered call (failed e) calls h = cc
post_reply-IsDelivered call (returned resp) calls h = (
  resp,
  refl,
  called_after_read-IsDelivered call resp.body (read_all_optimized resp.body) calls refl h,
)

-- Where HttpPost with a callback returns no error, the request was sent to a URL that is not empty, and
-- the callback took the whole body of the reply, all its reads up to its end, without an error, in its
-- only call.
pub http_post-IsDelivered {ℓ} :
    {V : Type ℓ} (url_error : Str → Option Error) (send : Request → Returns Response)
    (marshal : V → Bytes) (urlpath : Str) (params : PostParams V) (handlers : List (Str × Str))
    (call : Callback) (calls : List Bytes)
    → http_post url_error send marshal urlpath params handlers (some call)
      ≡ some (ok record { error = none; calls = calls })
    → (resp : Response) × (urlpath ≢ [])
      × (send (post_request urlpath handlers (body_of marshal params)) ≡ returned resp)
      × IsDelivered call resp.body calls
unfolding http_post
http_post-IsDelivered url_error send marshal [] params handlers call calls h = cc
http_post-IsDelivered url_error send marshal (c ∷ urlpath) params handlers call calls h =
    elim (Option-cases (url_error (c ∷ urlpath))) [
      | inl fine ↦
          let (resp, sent, delivered) =
            post_reply-IsDelivered call _ calls (rw (http_post, fine) at h) in
          (resp, λ e. cc, sent, delivered)
      | inr (e, refused) ↦ absurd (refuse (rw (http_post, refused) at h))
    ]
  where
    refuse :
        {e : Error} → not_called (some e) ≡ some (ok record { error = none; calls = calls }) → ⊥
    refuse h = cc
