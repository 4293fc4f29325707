-- ===== src/Presentation/Texts.antt =====
-- The text of chunks.
use shellspectre.Base.{◌≡◌, refl, List, [], ◌∷◌, ◌++◌, unwrap_or}
use shellspectre.Database.{Row}
use shellspectre.Presentation.{chunk_text}
use shellspectre.Reads.Chunks.{chunk_of_payload}
use shellspectre.Reads.{IoChunk, chunk_of}

pub chunk_text_nil : chunk_text [] ≡ []
unfolding chunk_text
chunk_text_nil = refl

pub chunk_text_push :
    (row : Row) (chunks : List IoChunk)
    → chunk_text (chunk_of row ∷ chunks) ≡ unwrap_or row.payload [] ++ chunk_text chunks
unfolding chunk_text
chunk_text_push row chunks = rw (chunk_of_payload row) refl
